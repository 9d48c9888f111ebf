-- ===== src/EngineTrait.antt =====
-- src/engine_trait.rs: the engine behind the wire protocol. `F` is the type of an f32, `N` that of a
-- JSON number, and `S` the engine's state, which a call may change behind its shared reference.
use julie_semantic_sidecar.Prelude.{
  ℕ, String, concat, Bool, false, List, [], ◌∷◌, Result, ok, err, length, All, ◌≡◌,
}
use julie_semantic_sidecar.Json.{Value, bool, string, json_object}

pub data Role : Type 0 where
  query document : Role

pub record EmbedOutput (F : Type 0) : Type 0 where
  pub dims : ℕ
  pub vectors : List (List F)

pub data EngineFailureClass : Type 0 where
  application resource_exhausted : EngineFailureClass

pub record EngineError : Type 0 where
  pub kind : String
  pub message : String
  pub failure_class : EngineFailureClass

-- `EngineError::new`
abbrev pub engine_error : String → String → EngineError
engine_error kind message = record { kind = kind; message = message; failure_class = application }

-- `EngineError::resource_exhausted`
abbrev pub exhausted_error : String → String → EngineError
exhausted_error kind message = record {
  kind = kind;
  message = message;
  failure_class = resource_exhausted;
}

-- `Display for EngineError`
unfoldable pub display : EngineError → String
display e = concat (e.kind ∷ ": " ∷ e.message ∷ [])

-- The trait: `embed` returns its result with the state that it leaves.
pub record EmbedEngine (F N S : Type 0) : Type 0 where
  pub health_facts : S → Result (Value N) EngineError
  pub is_accelerated : S → Bool
  pub embed : S → List String → Role → Result (EmbedOutput F) EngineError × S

-- What the trait promises of an answer: one vector for each text, all of the declared width.
pub record IsComplete {F : Type 0} (texts : List String) (out : EmbedOutput F) : Type 0 where
  pub count : length out.vectors ≡ length texts
  pub widths : All (λ v. length v ≡ out.dims) out.vectors

pub record UnreadyEngine : Type 0 where
  pub reason : String

module _ {F N : Type 0} where
  unfoldable pub unready : EmbedEngine F N UnreadyEngine
  unready = record {
    health_facts =
        λ s. ok (json_object (("ready", bool false) ∷ ("degraded_reason", string s.reason) ∷ []));
    is_accelerated = λ s. false;
    embed = λ s texts role. (err (engine_error "EngineNotReady" s.reason), s);
  }
