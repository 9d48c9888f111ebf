-- ===== src/Engine/Llama.antt =====
-- What the engine calls of llama.cpp, as a record of its operations. `Ctx` is a context and `Batch` a
-- batch under construction.
use julie_semantic_sidecar.Prelude.{ℕ, String, List, Result}
use julie_semantic_sidecar.Manifest.{Pooling}

-- `DecodeError` and `EncodeError`; `unknown` carries the text of any other code.
pub data LlamaError : Type 0 where
  no_kv_cache_slot n_tokens_zero : LlamaError
  unknown : String → LlamaError

-- `TokenToStringError`: a piece that does not fit is reported with the space that it needs.
pub data PieceError : Type 0 where
  -- With `usize::try_from(-needed)`.
  insufficient_buffer_space : Result ℕ String → PieceError
  other : String → PieceError

-- `LlamaContextParams`, as far as they are set.
pub record ContextParams : Type 0 where
  pub n_ctx : ℕ
  pub n_batch : ℕ
  pub n_ubatch : ℕ
  pub n_seq_max : ℕ
  pub pooling : Pooling

-- `AddBos`
pub data AddBos : Type 0 where
  always never : AddBos

pub record Llama (F Ctx Batch : Type 0) : Type 0 where
  pub str_to_token : String → AddBos → Result (List ℕ) String
  pub token_to_piece_bytes : ℕ → ℕ → Result (List ℕ) PieceError
  -- `Display for TokenToStringError`
  pub piece_error : PieceError → String
  pub new_context : ContextParams → Result Ctx String
  pub new_batch : ℕ → ℕ → Batch
  pub add_sequence : Batch → List ℕ → ℕ → Result Batch String
  pub encode : Ctx → Batch → Result Ctx LlamaError
  pub decode : Ctx → Batch → Result Ctx LlamaError
  pub embeddings_seq_ith : Ctx → ℕ → Result (List F) String
