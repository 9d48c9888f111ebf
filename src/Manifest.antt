-- ===== src/Manifest.antt =====
-- src/manifest.rs: the pinned models.
use text.Mathlib.TextEquality.{eq_iff}
use julie_semantic_sidecar.Prelude.{
  ℕ, ◌≤◌, String, ◌≡◌, refl, Bool, true, false, List, [], ◌∷◌, Option, none, some, All, Among, here,
  there, find, find-All, str_eq, arith,
}

pub data Pooling : Type 0 where
  last cls : Pooling

-- `Pooling::as_str`
unfoldable pub pooling_str : Pooling → String
pooling_str last = "last"
pooling_str cls = "cls"

-- `Default` and `Fallback`.
pub data Tier : Type 0 where
  default fallback : Tier

unfoldable pub tier_str : Tier → String
tier_str default = "default"
tier_str fallback = "fallback"

pub record ModelPin : Type 0 where
  pub id : String
  pub model : String
  pub file : String
  pub url : String
  pub sha256 : String
  pub size_bytes : ℕ
  pub native_dims : ℕ
  pub mrl_lanes : List ℕ
  pub serve_dims : ℕ
  pub pooling : Pooling
  pub eos_marker : Option String
  pub query_instruction : String
  pub document_instruction : String
  pub max_text_tokens : ℕ
  pub model_revision : String
  pub tier : Tier

abbrev pub qwen3 : ModelPin
qwen3 = record {
  id = "qwen3-0.6b-f16";
  model = "Qwen3-Embedding-0.6B";
  file = "Qwen3-Embedding-0.6B-f16.gguf";
  url =
      "https://huggingface.co/Qwen/Qwen3-Embedding-0.6B-GGUF/resolve/main/Qwen3-Embedding-0.6B-f16.gguf";
  sha256 = "421a27e58d165478cc7acb984a688c2aa41404968b0203e7cd743ece44c54340";
  size_bytes = 1_197_629_632;
  native_dims = 1024;
  mrl_lanes = 256 ∷ 512 ∷ 1024 ∷ [];
  serve_dims = 512;
  pooling = last;
  eos_marker = some "<|endoftext|>";
  query_instruction =
      "Instruct: Given a code search query, retrieve the code or documentation that answers it\nQuery: ";
  document_instruction = "";
  max_text_tokens = 32768;
  model_revision = "main";
  tier = fallback;
}

abbrev pub bge_small : ModelPin
bge_small = record {
  id = "bge-small-en-v1.5-f32";
  model = "bge-small-en-v1.5";
  file = "bge-small-en-v1.5-f32.gguf";
  url =
      "https://huggingface.co/CompendiumLabs/bge-small-en-v1.5-gguf/resolve/main/bge-small-en-v1.5-f32.gguf";
  sha256 = "bf40c42ad7d89382e9ba7376d5c4b73f6b556cb541fab37aaa1da9c320149b65";
  size_bytes = 133_609_568;
  native_dims = 384;
  mrl_lanes = 384 ∷ [];
  serve_dims = 384;
  pooling = cls;
  eos_marker = none;
  query_instruction = "Represent this sentence for searching relevant passages: ";
  document_instruction = "";
  max_text_tokens = 512;
  model_revision = "main";
  tier = default;
}

-- `PINS`, which `manifest` returns.
abbrev pub pins : List ModelPin
pins = qwen3 ∷ bge_small ∷ []

unfoldable pub by_id : String → Option ModelPin
by_id id = find (λ pin. str_eq pin.id id) pins

abbrev pub is_default : Tier → Bool
is_default default = true
is_default fallback = false

-- `none` is the panic of `expect`.
unfoldable pub default_model : Option ModelPin
default_model = find (λ pin. is_default pin.tier) pins

-- `DEFAULT_MODEL_ID` of src/lib.rs.
abbrev pub default_model_id : String
default_model_id = "bge-small-en-v1.5-f32"

-- The lane that is served is one that the model has, and its token budget is not zero.
pub record IsServable (pin : ModelPin) : Type 0 where
  pub lane : Among pin.serve_dims pin.mrl_lanes
  pub width : pin.serve_dims ≤ pin.native_dims
  pub room : 1 ≤ pin.max_text_tokens

pins-IsServable : All IsServable pins
pins-IsServable = (
  record { lane = there (here refl); width = omega arith; room = omega arith },
  (record { lane = here refl; width = omega arith; room = omega arith }, tt),
)

-- A pin found by its id has that id, serves a lane that the model has, and has a token budget.
pub by_id_sound :
    (id : String) (pin : ModelPin) → by_id id ≡ some pin → (pin.id ≡ id) × IsServable pin
unfolding by_id
by_id_sound id pin e =
    let (good, same) =
      find-All IsServable (λ (pin : ModelPin). str_eq pin.id id) pins pin pins-IsServable e in
    ((eq_iff pin.id id).0 same, good)
