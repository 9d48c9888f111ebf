-- ===== src/Engine/Embed.antt =====
-- `LlamaEngine::embed` and the per-input pipeline `build_input`.
pub mod Laws
pub mod Tests
use julie_semantic_sidecar.Prelude.{
  ℕ, zero, suc, ◌-◌, String, concat, decimal, Bool, true, false, not, ◌==◌, if◌then◌else◌, is_empty,
  List, [], ◌∷◌, ◌++◌, find, Option, none, some, Result, ok, err, ◌>>=◌, map_err, length,
}
use julie_semantic_sidecar.Json.{Serde}
use julie_semantic_sidecar.EngineTrait.{
  Role, query, document, EmbedOutput, EngineError, engine_error, EmbedEngine,
}
use julie_semantic_sidecar.Manifest.{ModelPin, Pooling, last, cls}
use julie_semantic_sidecar.Sanitize.{sanitize}
use julie_semantic_sidecar.Truncate.{fit}
use julie_semantic_sidecar.Health.{
  BackendCapabilities, EngineFacts, ModelState, ready, default_limits, max_batch_items, build,
}
use julie_semantic_sidecar.Backend.Selection.{Selection}
use julie_semantic_sidecar.Engine.Llama.{
  PieceError, insufficient_buffer_space, other, AddBos, always, never, Llama,
}
use julie_semantic_sidecar.Engine.Group.{group_by_cell_budget}
use julie_semantic_sidecar.Engine.Isolate.{isolate}
use julie_semantic_sidecar.Engine.Lane.{Float}
use julie_semantic_sidecar.Engine.Encode.{encode_group}

pub record LlamaEngine : Type 0 where
  pub pin : ModelPin
  pub eos_reserve : ℕ
  pub special_token_overhead : ℕ
  pub device : String
  pub selection : Selection
  pub capabilities : BackendCapabilities

abbrev max_tokens_per_encode : ℕ
max_tokens_per_encode = 4096

abbrev max_decode_sequences : ℕ
max_decode_sequences = 64

abbrev max_cls_group_tokens : ℕ
max_cls_group_tokens = 2048

-- The budget and the sequence limit of the groups.
unfoldable pub group_limits : Pooling → ℕ × ℕ
group_limits cls = (max_cls_group_tokens, max_batch_items)
group_limits last = (max_tokens_per_encode, max_decode_sequences)

abbrev instruction : ModelPin → Role → String
instruction pin query = pin.query_instruction
instruction pin document = pin.document_instruction

-- `Option::get_or_insert`: the first error stays.
abbrev record_first : Option String → String → Option String
record_first none e = some e
record_first (some first) e = some first

abbrev with_marker : Option String → String → String
with_marker none fitted = fitted
with_marker (some marker) fitted = concat (fitted ∷ marker ∷ [])

-- The groups' answers put into one list; an error of any group is the answer.
abbrev gather :
    {F : Type 0}
    → Option (Result (List (List F)) EngineError)
    → Option (Result (List (List F)) EngineError)
    → Option (Result (List (List F)) EngineError)
gather none rest = none
gather (some (err e)) rest = some (err e)
gather (some (ok vs)) none = none
gather (some (ok vs)) (some (err e)) = some (err e)
gather (some (ok vs)) (some (ok ws)) = some (ok (vs ++ ws))

module _ {F Ctx Batch : Type 0} (float : Float F) (llama : Llama F Ctx Batch)
    (from_utf8 : List ℕ → Result String String) where
  retry_piece : ℕ → PieceError → Result (List ℕ) String
  retry_piece token (insufficient_buffer_space (err reason)) = err reason
  retry_piece token (insufficient_buffer_space (ok needed)) =
      map_err llama.piece_error (llama.token_to_piece_bytes token needed)
  retry_piece token (other e) = err (llama.piece_error (other e))

  unfoldable pub token_piece : ℕ → Result (List ℕ) String
  unfolding retry_piece
  token_piece token = elim (llama.token_to_piece_bytes token 8) [
    | ok bytes ↦ ok bytes
    | err failure ↦ retry_piece token failure
  ]

  unfoldable pub piece_bytes : List ℕ → Result (List ℕ) String
  unfolding token_piece
  piece_bytes [] = ok []
  piece_bytes (token ∷ tokens) = do
    bytes ← token_piece token
    rest ← piece_bytes tokens
    ok (bytes ++ rest)

  unfoldable pub detokenize : List ℕ → Result String String
  unfolding piece_bytes
  detokenize tokens = do bytes ← piece_bytes tokens; from_utf8 bytes

  -- The closures that `build_input` hands to `fit`: a failure leaves nothing, and is recorded.
  unfoldable pub tokenize_recording : String → Option String → List ℕ × Option String
  tokenize_recording s slot = elim (llama.str_to_token s never) [
    | ok tokens ↦ (tokens, slot)
    | err e ↦ ([], record_first slot e)
  ]

  unfoldable pub detokenize_recording : List ℕ → Option String → String × Option String
  unfolding detokenize
  detokenize_recording tokens slot = elim (detokenize tokens) [
    | ok text ↦ (text, slot)
    | err e ↦ ("", record_first slot e)
  ]

  unfoldable pub build_input : LlamaEngine → String → Role → Result (List ℕ) EngineError
  unfolding tokenize_recording detokenize_recording
  build_input engine text role =
      let pin = engine.pin in
      let prefixed = concat (instruction pin role ∷ sanitize text ∷ []) in
      let (fitted, slot) =
        fit tokenize_recording detokenize_recording prefixed pin.max_text_tokens engine.eos_reserve
          engine.special_token_overhead none in
      elim slot [
        | some e ↦ err (engine_error "Tokenize" e)
        | none ↦
            map_err (engine_error "Tokenize")
              (llama.str_to_token (with_marker pin.eos_marker fitted) always)
      ]

  unfoldable pub build_inputs :
      LlamaEngine → List String → Role → Result (List (List ℕ)) EngineError
  build_inputs engine [] role = ok []
  build_inputs engine (text ∷ texts) role = do
    tokens ← build_input engine text role
    rest ← build_inputs engine texts role
    ok (tokens ∷ rest)

  -- The groups are encoded in turn, each isolated on its own.
  unfoldable pub encode_groups :
      ModelPin → List (List (List ℕ)) → Option (Result (List (List F)) EngineError)
  encode_groups pin [] = some (ok [])
  encode_groups pin (group ∷ groups) =
      gather
        (isolate float.zero pin.serve_dims (encode_group float llama pin.pooling pin.serve_dims)
          group)
        (encode_groups pin groups)

  -- The two checks before the answer.
  unfoldable pub checked : ℕ → ℕ → List (List F) → Result (EmbedOutput F) EngineError
  checked dims count vectors =
      if not (length vectors == count)
      then err (
          engine_error "CountMismatch" (
            concat (
              "produced "
              ∷ decimal (length vectors)
              ∷ " vectors for "
              ∷ decimal count
              ∷ " texts"
              ∷ [])))
      else elim (find (λ v. not (length v == dims)) vectors) [
        | some bad ↦ err (
            engine_error "DimsMismatch" (
              concat (
                "produced a "
                ∷ decimal (length bad)
                ∷ "-dim vector, declared "
                ∷ decimal dims
                ∷ [])))
        | none ↦ ok (record { dims = dims; vectors = vectors })
      ]

  abbrev finish :
      ℕ
      → ℕ
      → Option (Result (List (List F)) EngineError)
      → Option (Result (EmbedOutput F) EngineError)
  finish dims count none = none
  finish dims count (some (err e)) = some (err e)
  finish dims count (some (ok vectors)) = some (checked dims count vectors)

  -- `none` is a bisection that never ends; there is none.
  unfoldable pub embed_groups :
      LlamaEngine → ℕ → List (List ℕ) → Option (Result (EmbedOutput F) EngineError)
  unfolding encode_groups checked
  embed_groups engine count inputs =
      let (budget, max_sequences) = group_limits engine.pin.pooling in
      finish engine.pin.serve_dims count
        (encode_groups engine.pin (group_by_cell_budget inputs budget max_sequences))

  unfoldable pub embed :
      LlamaEngine → List String → Role → Option (Result (EmbedOutput F) EngineError)
  unfolding build_inputs embed_groups
  embed engine texts role =
      if is_empty texts
      then some (ok (record { dims = engine.pin.serve_dims; vectors = [] }))
      else elim (build_inputs engine texts role) [
        | err e ↦ some (err e)
        | ok inputs ↦ embed_groups engine (length texts) inputs
      ]
