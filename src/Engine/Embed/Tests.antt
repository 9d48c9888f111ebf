-- ===== src/Engine/Embed/Tests.antt =====
-- The engine on concrete input, with a model of one-character tokens.
use julie_semantic_sidecar.Prelude.{
  ℕ, arith, subst, ◌≤◌, ◌/◌, ◌+◌, ◌*◌, ◌==◌, max, ◌≡◌, refl, String, true, if◌then◌else◌, List, [],
  ◌∷◌, ◌++◌, map, Option, none, some, Result, ok, err, All, length, flatten, here, there,
}
use julie_semantic_sidecar.EngineTrait.{document}
use julie_semantic_sidecar.Manifest.{ModelPin, cls, bge_small, by_id, IsServable, by_id_sound}
use julie_semantic_sidecar.Health.{cpu_only}
use julie_semantic_sidecar.Backend.Selection.{cpu_selection}
use julie_semantic_sidecar.Engine.Group.{group_by_cell_budget}
use julie_semantic_sidecar.Engine.Group.Laws.{
  flatten-group_by_cell_budget, IsWithin, group_by_cell_budget-IsWithin,
}
use julie_semantic_sidecar.Engine.Isolate.{EncodeFailure, item, isolate}
use julie_semantic_sidecar.Engine.Isolate.Total.{Outcome, isolate-Outcome}
use julie_semantic_sidecar.Engine.Isolate.Items.{isolated, encode_batch, isolate-items}
use julie_semantic_sidecar.Engine.Lane.{Float, serve_lane}
use julie_semantic_sidecar.Engine.Llama.{Llama}
use julie_semantic_sidecar.Engine.Encode.{context_params, encode_group, fits_words}
use julie_semantic_sidecar.Engine.Encode.Laws.{
  AreServed, context_params_lem, encode_group-AreServed,
}
use julie_semantic_sidecar.Engine.Embed.{LlamaEngine, embed}
use julie_semantic_sidecar.Engine.Embed.Laws.{Answer, embed-Answer}

-- Numbers for floats, where every vector already has unit length.
abbrev pub float : Float ℕ
float = record {
  zero = 0;
  add = λ a b. a + b;
  mul = λ a b. a * b;
  div = λ a b. a;
  sqrt = λ a. a;
  is_finite = λ a. true;
  le_zero = λ a. a == 0;
}

-- A context holds the batch that was encoded in it.
abbrev pub llama : Llama ℕ (List (List ℕ)) (List (List ℕ))
llama = record {
  str_to_token = λ text bos. ok (1 ∷ 2 ∷ []);
  token_to_piece_bytes = λ token space. ok (token ∷ []);
  piece_error = λ e. "piece";
  new_context = λ params. ok [];
  new_batch = λ n_tokens n_seq. [];
  add_sequence = λ batch tokens seq_id. ok (batch ++ tokens ∷ []);
  encode = λ context batch. ok batch;
  decode = λ context batch. ok batch;
  embeddings_seq_ith = λ context i. ok (3 ∷ 4 ∷ 5 ∷ []);
}

abbrev pub from_utf8 : List ℕ → Result String String
from_utf8 bytes = ok "text"

abbrev pub two_wide : ModelPin
two_wide = record bge_small { native_dims = 3; mrl_lanes = 2 ∷ []; serve_dims = 2 }

abbrev engine : LlamaEngine
engine = record {
  pin = two_wide;
  eos_reserve = 0;
  special_token_overhead = 2;
  device = "cpu";
  selection = cpu_selection;
  capabilities = cpu_only;
}

by_id_sound_example : (bge_small.id ≡ "bge-small-en-v1.5-f32") × IsServable bge_small
unfolding by_id
by_id_sound_example = by_id_sound "bge-small-en-v1.5-f32" bge_small refl

abbrev inputs : List (List ℕ)
inputs = (1 ∷ []) ∷ (1 ∷ 2 ∷ 3 ∷ []) ∷ (1 ∷ 2 ∷ []) ∷ []

flatten-group_by_cell_budget_example : flatten (group_by_cell_budget inputs 4 2) ≡ inputs
flatten-group_by_cell_budget_example = flatten-group_by_cell_budget inputs 4 2

group_by_cell_budget-IsWithin_example : All (IsWithin 4 (max 2 1)) (group_by_cell_budget inputs 4 2)
group_by_cell_budget-IsWithin_example = group_by_cell_budget-IsWithin inputs 4 2

context_params_lem_example :
    let p = context_params cls inputs in
    (length {A = ℕ} (1 ∷ 2 ∷ 3 ∷ []) ≤ p.n_ctx / p.n_seq_max)
    × (p.n_seq_max ≡ length inputs)
    × (p.n_ubatch ≤ p.n_batch)
context_params_lem_example = context_params_lem cls inputs (1 ∷ 2 ∷ 3 ∷ []) (there (here refl))

-- The second of three items cannot be encoded.
abbrev encode_one : ℕ → Option (List ℕ)
encode_one n = if n == 2 then none else some (n ∷ [])

isolate-items_example :
    isolate 0 1 (encode_batch 0 1 encode_one) (1 ∷ 2 ∷ 3 ∷ [])
    ≡ some (ok (map (isolated 0 1 encode_one) (1 ∷ 2 ∷ 3 ∷ [])))
isolate-items_example =
    isolate-items 0 1 encode_one (encode_batch 0 1 encode_one) (λ xs. refl) (1 ∷ 2 ∷ 3 ∷ [])

abbrev lane : List ℕ
lane = 3 ∷ 4 ∷ []

embed-Answer_example :
    Answer float llama from_utf8 engine
      ("a" ∷ "b" ∷ [])
      document
      (embed float llama from_utf8 engine ("a" ∷ "b" ∷ []) document)
embed-Answer_example = embed-Answer float llama from_utf8 engine ("a" ∷ "b" ∷ []) document

abbrev pair : List (List ℕ)
pair = (1 ∷ 2 ∷ []) ∷ (1 ∷ []) ∷ []

abbrev served : List (List ℕ)
served = (3 ∷ 4 ∷ []) ∷ (3 ∷ 4 ∷ []) ∷ []

encode_group-AreServed_example : AreServed float llama cls 2 (length pair) served
unfolding encode_group fits_words serve_lane
encode_group-AreServed_example = encode_group-AreServed float llama cls 2 pair served refl

-- An item that cannot be encoded fails a batch of more than one.
abbrev encode : List ℕ → Result (List (List ℕ)) EncodeFailure
encode [] = ok []
encode (x ∷ []) = ok ((x ∷ []) ∷ [])
encode (x ∷ y ∷ xs) = err item

encode-widths : (xs : List ℕ) (vs : List (List ℕ)) → encode xs ≡ ok vs → All (λ v. length v ≡ 1) vs
encode-widths [] vs e = let same : [] ≡ vs = ground arith in subst (All (λ v. length v ≡ 1)) same tt
encode-widths (x ∷ []) vs e =
    let same : (x ∷ []) ∷ [] ≡ vs = ground arith in subst (All (λ v. length v ≡ 1)) same (refl, tt)
encode-widths (x ∷ y ∷ xs) vs e = absurd (ground arith)

isolate-Outcome_example :
    Outcome 0 1 encode encode-widths (1 ∷ 2 ∷ []) (isolate 0 1 encode (1 ∷ 2 ∷ []))
isolate-Outcome_example = isolate-Outcome 0 1 encode encode-widths (1 ∷ 2 ∷ [])
