-- ===== src/Engine/Encode.antt =====
-- `encode_group`: one group of inputs in one fresh llama context.
pub mod Laws
use julie_semantic_sidecar.Prelude.{
  ℕ, zero, suc, ◌+◌, ◌*◌, ◌^◌, max, min, String, concat, decimal, Bool, true, false, ◌&&◌, not,
  ◌==◌, ltb, if◌then◌else◌, List, [], ◌∷◌, Option, none, some, Result, ok, err, ◌>>=◌, ok_or,
  map_err, length,
}
use julie_semantic_sidecar.Manifest.{Pooling, last, cls}
use julie_semantic_sidecar.Engine.Llama.{
  LlamaError, no_kv_cache_slot, n_tokens_zero, unknown, ContextParams, Llama,
}
use julie_semantic_sidecar.Engine.Isolate.{
  EncodeFailure, item, systemic, systemic_failure, exhausted_failure,
}
use julie_semantic_sidecar.Engine.Lane.{Float, serve_lane}
use julie_semantic_sidecar.Engine.Group.Laws.{longest}

abbrev pub max_decode_ubatch_tokens : ℕ
max_decode_ubatch_tokens = 2048

pub record EncodeShape : Type 0 where
  pub total_tokens : ℕ
  pub n_ctx : ℕ
  pub n_batch : ℕ
  pub n_ubatch : ℕ
  pub n_seq : ℕ

-- `Display for EncodeShape`
unfoldable pub shape_str : EncodeShape → String
shape_str s = concat (
    "tokens="
    ∷ decimal s.total_tokens
    ∷ " n_ctx="
    ∷ decimal s.n_ctx
    ∷ " n_batch="
    ∷ decimal s.n_batch
    ∷ " n_ubatch="
    ∷ decimal s.n_ubatch
    ∷ " n_seq="
    ∷ decimal s.n_seq
    ∷ [])

abbrev describe : String → EncodeShape → String
describe error shape = concat (error ∷ " (" ∷ shape_str shape ∷ ")" ∷ [])

-- `decode_failure` and `encode_failure` differ in the kind that they name.
unfoldable pub decode_failure : LlamaError → EncodeShape → EncodeFailure
decode_failure no_kv_cache_slot shape = item
decode_failure n_tokens_zero shape = item
decode_failure (unknown error) shape = systemic_failure "Decode" (describe error shape)

unfoldable pub encode_failure : LlamaError → EncodeShape → EncodeFailure
encode_failure no_kv_cache_slot shape = item
encode_failure n_tokens_zero shape = item
encode_failure (unknown error) shape = systemic_failure "Encode" (describe error shape)

abbrev pub sum_lengths : List (List ℕ) → ℕ
sum_lengths [] = 0
sum_lengths (t ∷ ts) = length t + sum_lengths ts

-- The four conversions: to u32 the token total, the member count and the cells, to i32 the count.
unfoldable pub fits_words : List (List ℕ) → Bool
fits_words group =
    ltb (sum_lengths group) (2 ^ 32)
    && ltb (length group) (2 ^ 31)
    && ltb (length group) (2 ^ 32)
    && ltb (longest group * length group) (2 ^ 32)

unfoldable pub ubatch : Pooling → ℕ → ℕ
ubatch cls total = total
ubatch last total = min total max_decode_ubatch_tokens

-- The geometry that a group's context is asked for.
unfoldable pub context_params : Pooling → List (List ℕ) → ContextParams
context_params pooling group = record {
  n_ctx = longest group * length group;
  n_batch = sum_lengths group;
  n_ubatch = ubatch pooling (sum_lengths group);
  n_seq_max = length group;
  pooling = pooling;
}

unfoldable pub shape_of : Pooling → List (List ℕ) → EncodeShape
shape_of pooling group = record {
  total_tokens = sum_lengths group;
  n_ctx = longest group * length group;
  n_batch = sum_lengths group;
  n_ubatch = ubatch pooling (sum_lengths group);
  n_seq = length group;
}

module _ {F Ctx Batch : Type 0} (float : Float F) (llama : Llama F Ctx Batch) (pooling : Pooling)
    (serve_dims : ℕ) where
  -- The members of the group, each under its place as the sequence id.
  fill_batch : Batch → ℕ → List (List ℕ) → Result Batch EncodeFailure
  fill_batch batch seq_id [] = ok batch
  fill_batch batch seq_id (tokens ∷ group) = do
    batch' ← map_err (λ e. item) (llama.add_sequence batch tokens seq_id)
    fill_batch batch' (seq_id + 1) group

  -- One vector for each sequence id from `seq_id` on, for `count` of them.
  unfoldable pub read_vectors : Ctx → ℕ → ℕ → Result (List (List F)) EncodeFailure
  read_vectors context seq_id zero = ok []
  read_vectors context seq_id (suc count) = do
    raw ← map_err (systemic_failure "Embeddings") (llama.embeddings_seq_ith context seq_id)
    vector ← ok_or (serve_lane float serve_dims raw) item
    rest ← read_vectors context (seq_id + 1) count
    ok (vector ∷ rest)

  run_context : Pooling → Ctx → Batch → EncodeShape → Result Ctx EncodeFailure
  run_context cls context batch shape =
      map_err (λ e. encode_failure e shape) (llama.encode context batch)
  run_context last context batch shape =
      map_err (λ e. decode_failure e shape) (llama.decode context batch)

  encode_in : List (List ℕ) → Result (List (List F)) EncodeFailure
  unfolding read_vectors
  encode_in group = do
    let shape = shape_of pooling group
    context ←
        map_err (λ e. exhausted_failure "ContextAlloc" (describe e shape))
          (llama.new_context (context_params pooling group))
    batch ← fill_batch (llama.new_batch (sum_lengths group) (length group)) 0 group
    context' ← run_context pooling context batch shape
    read_vectors context' 0 (length group)

  unfoldable pub encode_group : List (List ℕ) → Result (List (List F)) EncodeFailure
  unfolding encode_in fill_batch run_context
  encode_group group =
      if not (fits_words group)
      then err item
      else if sum_lengths group == 0
      then err item
      else encode_in group
