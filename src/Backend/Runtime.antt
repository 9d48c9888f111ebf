-- ===== src/Backend/Runtime.antt =====
-- `select_runtime_with` from its probes on: the timing of the candidates and the choice between them.
-- The discovery, the cache and the benchmark, whose answers are a list of measurements, come before it.
-- A duration is in nanoseconds.
pub mod Fastest
pub mod Tests
use julie_semantic_sidecar.Prelude.{
  ℕ, ◌+◌, ◌-◌, ◌*◌, ◌^◌, min, String, str_eq, concat, Bool, true, false, ltb, if◌then◌else◌, List,
  [], ◌∷◌, ◌++◌, any, keep, not, is_empty, Option, none, some, Result, ok, err,
}
use julie_semantic_sidecar.Health.{BackendCapabilities}
use julie_semantic_sidecar.Backend.Selection.{
  cpu, BackendCandidate, Selection, selection, cpu_selection, degraded_to_cpu, set_capability,
}

pub record ProbeTiming : Type 0 where
  pub batch_1 : ℕ
  pub batch_16 : ℕ

-- `Duration::MAX`
abbrev duration_max : ℕ
duration_max = 2 ^ 64 * 1_000_000_000 - 1

-- `ProbeTiming::total`
unfoldable pub total : ProbeTiming → ℕ
total t = min (t.batch_1 + t.batch_16) duration_max

pub record RuntimeSelection : Type 0 where
  pub selection : Selection
  pub capabilities : BackendCapabilities
  pub device : String
  pub device_index : Option ℕ
  pub cache_key : Option String

-- A candidate with what `benchmark` answered for it.
pub record Measured : Type 0 where
  pub candidate : BackendCandidate
  pub answer : Result ProbeTiming String

-- The loop's variables.
pub record Probing : Type 0 where
  pub fastest : Option (BackendCandidate × ProbeTiming)
  pub failures : List String
  pub usable_backends : List String
  pub failed_backends : List String

-- `is_none_or(|(_, current)| timing.total() < current.total())`
unfoldable pub is_faster : ProbeTiming → Option (BackendCandidate × ProbeTiming) → Bool
unfolding total
is_faster timing none = true
is_faster timing (some (c, current)) = ltb (total timing) (total current)

unfoldable pub record_probe : Measured → Probing → Probing
unfolding is_faster
record_probe m s = elim m.answer [
  | ok timing ↦ record s {
    usable_backends = m.candidate.backend ∷ s.usable_backends;
    fastest = if is_faster timing s.fastest then some (m.candidate, timing) else s.fastest;
  }
  | err reason ↦ record s {
    failed_backends = m.candidate.backend ∷ s.failed_backends;
    failures = s.failures ++ concat (m.candidate.backend ∷ " probe failed: " ∷ reason ∷ []) ∷ [];
  }
]

unfoldable pub record_probes : List Measured → Probing → Probing
unfolding record_probe
record_probes [] s = s
record_probes (m ∷ ms) s = record_probes ms (record_probe m s)

-- `join("; ")`
abbrev joined : List String → String
joined [] = ""
joined (s ∷ []) = s
joined (s ∷ t ∷ ss) = concat (s ∷ "; " ∷ joined (t ∷ ss) ∷ [])

-- The capabilities without the backends that failed and were never usable.
unfoldable pub disable_failed :
    List String → List String → BackendCapabilities → BackendCapabilities
unfolding set_capability
disable_failed usable [] capabilities = capabilities
disable_failed usable (backend ∷ failed) capabilities =
    let rest = disable_failed usable failed capabilities in
    if any (λ b. str_eq b backend) usable then rest else set_capability rest backend false

abbrev on_cpu : Selection → BackendCapabilities → RuntimeSelection
on_cpu chosen capabilities = record {
  selection = chosen;
  capabilities = capabilities;
  device = cpu;
  device_index = none;
  cache_key = none;
}

abbrev or_cpu : Option String → String
or_cpu none = cpu
or_cpu (some requested) = requested

unfoldable pub without_winner : Option String → List String → BackendCapabilities → RuntimeSelection
unfolding cpu_selection degraded_to_cpu
without_winner none failures capabilities = on_cpu cpu_selection capabilities
without_winner (some requested) failures capabilities =
    on_cpu
      (degraded_to_cpu requested
        (if is_empty failures then "requested backend is unavailable" else joined failures))
      capabilities

unfoldable pub choose :
    Option String → BackendCapabilities → ProbeTiming → Probing → RuntimeSelection
unfolding without_winner total selection degraded_to_cpu
choose requested capabilities cpu_timing s = elim s.fastest [
  | none ↦ without_winner requested s.failures capabilities
  | some (winner, timing) ↦
      if ltb (total timing) (total cpu_timing)
      then record {
        selection = selection winner.backend winner.backend none;
        capabilities = capabilities;
        device = winner.device;
        device_index = winner.device_index;
        cache_key = none;
      }
      else on_cpu (degraded_to_cpu (or_cpu requested) "accelerated backend did not beat cpu")
          capabilities
]

abbrev pub no_probes : List String → Probing
no_probes failures = record {
  fastest = none;
  failures = failures;
  usable_backends = [];
  failed_backends = [];
}

-- From the measurements to the choice; `failures` are those of the discovery.
unfoldable pub select_measured :
    Option String
    → BackendCapabilities
    → List String
    → ProbeTiming
    → List Measured
    → RuntimeSelection
unfolding record_probes disable_failed choose
select_measured requested capabilities failures cpu_timing measured =
    let s = record_probes measured (no_probes failures) in
    choose requested (disable_failed s.usable_backends s.failed_backends capabilities) cpu_timing s
