-- ===== src/Broker/Loader.antt =====
-- `load` of src/broker/engine.rs: the engine that the broker loads, which is one that only answers that
-- it is not ready where the model is not prepared.
pub mod Laws
use julie_semantic_sidecar.Prelude.{
  ℕ, String, str_eq, if◌then◌else◌, List, Option, none, some, Result, ok, err,
}
use julie_semantic_sidecar.Json.{Serde}
use julie_semantic_sidecar.EngineTrait.{
  EngineError, engine_error, EmbedEngine, UnreadyEngine, unready,
}
use julie_semantic_sidecar.Manifest.{ModelPin}
use julie_semantic_sidecar.Health.{model_not_prepared}
use julie_semantic_sidecar.Broker.Engine.{BackendPolicy, BrokerEngineState, load_with}
use julie_semantic_sidecar.Backend.Discovery.{Machine}
use julie_semantic_sidecar.Backend.Cache.{CacheCodec, CacheIo}
use julie_semantic_sidecar.Backend.Modules.{ModuleFile, ℤ}
use julie_semantic_sidecar.Engine.Lane.{Float}
use julie_semantic_sidecar.Engine.Load.{Native}
use julie_semantic_sidecar.Engine.Policy.{Host, LoadState, Engine, load_with_policy, llama_engine}

pub data LoadedEngine (E : Type 0) : Type 0 where
  ready : E → LoadedEngine E
  unready_engine : UnreadyEngine → LoadedEngine E

-- `EmbedEngine for LoadedEngine`
module _ {F N E : Type 0} (inner : EmbedEngine F N E) where
  abbrev resume : {A : Type 0} → A × E → A × LoadedEngine E
  resume (answer, engine) = (answer, ready engine)

  abbrev resume_unready : {A : Type 0} → A × UnreadyEngine → A × LoadedEngine E
  resume_unready (answer, engine) = (answer, unready_engine engine)

  abbrev not_ready : EmbedEngine F N UnreadyEngine
  not_ready = unready

  unfoldable pub loaded_engine : EmbedEngine F N (LoadedEngine E)
  loaded_engine = record {
    health_facts = λ e. elim e [
      | ready engine ↦ inner.health_facts engine
      | unready_engine engine ↦ not_ready.health_facts engine
    ];
    is_accelerated = λ e. elim e [
      | ready engine ↦ inner.is_accelerated engine
      | unready_engine engine ↦ not_ready.is_accelerated engine
    ];
    embed = λ e texts role. elim e [
      | ready engine ↦ resume (inner.embed engine texts role)
      | unready_engine engine ↦ resume_unready (not_ready.embed engine texts role)
    ];
  }

-- What the closure makes of a load: a model that is not prepared is an engine that says so.
unfoldable pub tolerated : {E : Type 0} → Result E EngineError → Result (LoadedEngine E) EngineError
tolerated (ok engine) = ok (ready engine)
tolerated (err e) =
    if str_eq e.kind "ModelNotPrepared"
    then ok (unready_engine (record { reason = model_not_prepared }))
    else err e

module _ {F Ctx Batch L W : Type 0} (float : Float F) (from_utf8 : List ℕ → Result String String)
    (native : Native F Ctx Batch W) (codec : CacheCodec) (io : CacheIo)
    (cache_key_of : Machine → String) (score : ModuleFile → L → Result ℤ String × L)
    (load_module : ModuleFile → L → Result (Unit {0}) String × L) (host : Host)
    (pin : ModelPin) where
  -- The closure `loader`. A load does not panic (Engine/Policy/Laws), so that the first case does not
  -- arise.
  unfoldable pub loader :
      BackendPolicy
      → LoadState codec.Bytes L W
      → Result
          (LoadedEngine
            (Engine float from_utf8 native codec io cache_key_of score load_module host pin))
          EngineError
        × LoadState codec.Bytes L W
  unfolding load_with_policy tolerated
  loader policy s =
      elim (load_with_policy float from_utf8 native codec io cache_key_of score load_module host pin
        policy s) [
          | none ↦ (err (engine_error "" ""), s)
          | some (answer, s') ↦ (tolerated answer, s')
        ]
