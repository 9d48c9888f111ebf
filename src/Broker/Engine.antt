-- ===== src/Broker/Engine.antt =====
-- src/broker/engine.rs: the engine of the broker, which drops an exhausted accelerator for good. `E` is
-- the state of the engine inside, and `L` that of the loader. A panic of `expect` is `none`. The lease
-- is the file lock, here whether it is held.
pub mod Lease
pub mod Tests
use julie_semantic_sidecar.Prelude.{
  String, Bool, true, false, not, ◌&&◌, if◌then◌else◌, List, Option, none, some, Result, ok, err,
}
use julie_semantic_sidecar.Json.{Value}
use julie_semantic_sidecar.EngineTrait.{
  Role, EmbedOutput, EngineFailureClass, application, resource_exhausted, EngineError, engine_error,
  EmbedEngine,
}
use julie_semantic_sidecar.Health.{apply_broker_runtime_facts, accelerator_resource_exhausted}

-- `BackendPolicy` of src/engine.rs
pub data BackendPolicy : Type 0 where
  auto cpu_only : BackendPolicy

pub record BrokerEngineState (E L : Type 0) : Type 0 where
  pub inner : Option E
  pub accelerator_lease : Bool
  pub loader : Option L
  pub degraded_reason : Option String
  pub terminal_failure : Option EngineError

-- `BrokerEngine::new`
unfoldable pub new : {E L : Type 0} → E → Bool → BrokerEngineState E L
new inner lease = record {
  inner = some inner;
  accelerator_lease = lease;
  loader = none;
  degraded_reason = none;
  terminal_failure = none;
}

abbrev pub policy_error : EngineError
policy_error = engine_error "BackendPolicy" "CpuOnly loader resolved an accelerated backend"

abbrev is_cpu_only : BackendPolicy → Bool
is_cpu_only auto = false
is_cpu_only cpu_only = true

abbrev pub is_exhausted : {F : Type 0} → Result (EmbedOutput F) EngineError → Bool
is_exhausted (ok out) = false
is_exhausted (err e) = exhausts e.failure_class
  where
    exhausts : EngineFailureClass → Bool
    exhausts application = false
    exhausts resource_exhausted = true

abbrev pub is_some : {A : Type 0} → Option A → Bool
is_some none = false
is_some (some a) = true

module _ {F N E L : Type 0} (engine : EmbedEngine F N E)
    (load : BackendPolicy → L → Result E EngineError × L) where
  -- The state that `load_with` builds from the loaded engine.
  unfoldable pub loaded : BackendPolicy → Bool → E → L → Result (BrokerEngineState E L) EngineError
  loaded policy lease inner loader =
      if is_cpu_only policy && engine.is_accelerated inner
      then err policy_error
      else ok (record {
        inner = some inner;
        accelerator_lease = lease && engine.is_accelerated inner;
        loader = some loader;
        degraded_reason = none;
        terminal_failure = none;
      })

  unfoldable pub load_with : Bool → L → Result (BrokerEngineState E L) EngineError
  unfolding loaded
  load_with lease loader =
      let policy = if lease then auto else cpu_only in
      let (answer, loader') = load policy loader in
      elim answer [ err e ↦ err e | ok inner ↦ loaded policy lease inner loader' ]

  -- `none` is the panic of a state with neither an engine nor a terminal failure.
  unfoldable pub health_facts : BrokerEngineState E L → Option (Result (Value N) EngineError)
  health_facts s = elim s.terminal_failure [
    | some e ↦ some (err e)
    | none ↦ elim s.inner [
      | none ↦ none
      | some inner ↦ elim (engine.health_facts inner) [
        | err e ↦ some (err e)
        | ok health ↦
            some (ok (apply_broker_runtime_facts health s.accelerator_lease s.degraded_reason))
      ]
    ]
  ]

  unfoldable pub is_accelerated : BrokerEngineState E L → Bool
  is_accelerated s = elim s.inner [ none ↦ false | some inner ↦ engine.is_accelerated inner ]

  -- The answer of the CPU engine that takes over, or the terminal failure.
  unfoldable pub take_over :
      BrokerEngineState E L
      → Result E EngineError
      → List String
      → Role
      → Result (EmbedOutput F) EngineError × BrokerEngineState E L
  take_over s (err e) texts role = (err e, record s { terminal_failure = some e })
  take_over s (ok cpu) texts role =
      if not (engine.is_accelerated cpu)
      then (let (answer, cpu') = engine.embed cpu texts role in
          (answer, record s { inner = some cpu' }))
      else (err policy_error, record s { terminal_failure = some policy_error })

  -- The engine and the lease are dropped before the loader is called.
  unfoldable pub demote :
      BrokerEngineState E L
      → List String
      → Role
      → Option (Result (EmbedOutput F) EngineError × BrokerEngineState E L)
  unfolding take_over
  demote s texts role = elim s.loader [
    | none ↦ none
    | some loader ↦
        let (answer, loader') = load cpu_only loader in
        some (
          take_over
            (record s {
              inner = none;
              accelerator_lease = false;
              loader = some loader';
              degraded_reason = some accelerator_resource_exhausted;
            })
            answer texts role)
  ]

  unfoldable pub embed :
      BrokerEngineState E L
      → List String
      → Role
      → Option (Result (EmbedOutput F) EngineError × BrokerEngineState E L)
  unfolding demote
  embed s texts role = elim s.terminal_failure [
    | some e ↦ some (err e, s)
    | none ↦ elim s.inner [
      | none ↦ none
      | some inner ↦
          let (first, inner') = engine.embed inner texts role in
          if is_exhausted first
            && engine.is_accelerated inner'
            && s.accelerator_lease
            && is_some s.loader
          then demote s texts role
          else some (first, record s { inner = some inner' })
    ]
  ]

  -- A broker's life: its requests, one after the other.
  unfoldable pub serve :
      BrokerEngineState E L → List (List String × Role) → Option (BrokerEngineState E L)
  serve s List.[] = some s
  serve s (List.◌∷◌ (texts, role) rest) = elim (embed s texts role) [
    | none ↦ none
    | some (answer, s') ↦ serve s' rest
  ]
