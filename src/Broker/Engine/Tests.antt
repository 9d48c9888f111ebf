-- ===== src/Broker/Engine/Tests.antt =====
-- The broker's engine on an accelerator that runs out of memory at its first request.
use julie_semantic_sidecar.Prelude.{
  ℕ, ◌+◌, ◌≡◌, refl, String, Bool, true, false, List, [], ◌∷◌, Option, some, Result, ok, err,
}
use julie_semantic_sidecar.Json.{null}
use julie_semantic_sidecar.EngineTrait.{
  Role, query, document, EmbedOutput, EngineError, exhausted_error, EmbedEngine,
}
use julie_semantic_sidecar.Broker.Engine.{
  BackendPolicy, auto, cpu_only, BrokerEngineState, load_with, embed, serve,
}
use julie_semantic_sidecar.Broker.Engine.Lease.{IsSound, broker_never_panics}

-- The engine's state is whether it runs on an accelerator.
abbrev answer_on : Bool → Result (EmbedOutput ℕ) EngineError
answer_on true = err (exhausted_error "Backend" "out of memory")
answer_on false = ok (record { dims = 1; vectors = (7 ∷ []) ∷ [] })

abbrev device : EmbedEngine ℕ ℕ Bool
device = record {
  health_facts = λ s. ok null;
  is_accelerated = λ s. s;
  embed = λ s texts role. (answer_on s, s);
}

abbrev wants : BackendPolicy → Bool
wants auto = true
wants cpu_only = false

-- The loader's state is how often it was called.
abbrev load : BackendPolicy → ℕ → Result Bool EngineError × ℕ
load policy n = (ok (wants policy), n + 1)

abbrev started : BrokerEngineState Bool ℕ
started = record {
  inner = some true;
  accelerator_lease = true;
  loader = some 1;
  degraded_reason = Option.none;
  terminal_failure = Option.none;
}

abbrev requests : List (List String × Role)
requests = (("a" ∷ [], query)) ∷ (("b" ∷ [], document)) ∷ []

abbrev answer_of : Option (Result (EmbedOutput ℕ) EngineError × BrokerEngineState Bool ℕ) → Bool
answer_of (some (ok out, s)) = s.accelerator_lease
answer_of r = true

-- The first request is answered on the CPU, and the lease is given up.
demoted : answer_of (embed device load started ("a" ∷ []) query) ≡ false
unfolding embed
demoted = refl

broker_never_panics_example :
    (s' : BrokerEngineState Bool ℕ) × (serve device load started requests ≡ some s')
    × IsSound device load (λ e texts role. refl) s'
unfolding load_with
broker_never_panics_example =
    broker_never_panics device load (λ e texts role. refl) true 0 started requests refl
