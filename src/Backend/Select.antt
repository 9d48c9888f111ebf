-- ===== src/Backend/Select.antt =====
-- `select_runtime_with`: from the request and the discovery to the choice, by way of the cache or of
-- the probes. The digest that keys the cache is a parameter, `cache_key_of`; `benchmark` has the state
-- `B`, and the cache file is as in Backend/Cache.
pub mod Steps
pub mod Laws
pub mod Tests
use julie_semantic_sidecar.Prelude.{
  ℕ, String, str_eq, concat, Bool, true, false, not, ◌&&◌, ◌||◌, if◌then◌else◌, List, [], ◌∷◌, ◌++◌,
  any, find, keep, drop, is_empty, Option, none, some, Result, ok, err,
}
use julie_semantic_sidecar.Prelude.Str.{is_some, to_ascii_lowercase, join}
use julie_semantic_sidecar.Sanitize.{trim}
use julie_semantic_sidecar.Health.{cpu_only}
use julie_semantic_sidecar.Backend.Selection.{
  cpu, metal, vulkan, cuda, BackendCandidate, cpu_selection, degraded_to_cpu,
}
use julie_semantic_sidecar.Backend.Discovery.{Machine, Discovery}
use julie_semantic_sidecar.Backend.Runtime.{
  ProbeTiming, RuntimeSelection, Measured, Probing, record_probes, select_measured, no_probes,
}
use julie_semantic_sidecar.Backend.Cache.{
  CacheCodec, CacheIo, read_runtime_cache, write_runtime_cache,
}

abbrev pub forced_cpu_runtime : RuntimeSelection
forced_cpu_runtime = record {
  selection = cpu_selection;
  capabilities = cpu_only;
  device = cpu;
  device_index = none;
  cache_key = none;
}

unfoldable pub degraded_runtime : String → String → RuntimeSelection
unfolding degraded_to_cpu
degraded_runtime requested reason = record {
  selection = degraded_to_cpu requested reason;
  capabilities = cpu_only;
  device = cpu;
  device_index = none;
  cache_key = none;
}

abbrev pub normalized : Option String → Option String
normalized none = none
normalized (some value) = some (to_ascii_lowercase (trim value))

abbrev pub is_text : String → Option String → Bool
is_text s none = false
is_text s (some t) = str_eq t s

abbrev has_backend : String → List BackendCandidate → Bool
has_backend backend candidates = any (λ (c : BackendCandidate). str_eq c.backend backend) candidates

-- The answer to a request that cannot be met, if it cannot.
unfoldable pub unavailable : Option String → Discovery → Option RuntimeSelection
unfolding degraded_runtime
unavailable none d = none
unavailable (some requested) d =
    if not (str_eq requested metal || str_eq requested vulkan || str_eq requested cuda)
    then some (degraded_runtime requested "unknown forced backend")
    else if not (has_backend requested d.candidates)
    then some (
        degraded_runtime requested (
          if is_empty d.accelerator_failures
          then "requested backend is unavailable"
          else join "; " d.accelerator_failures))
    else none

abbrev pub index_of : Option BackendCandidate → Option ℕ
index_of none = none
index_of (some c) = c.device_index

-- A cached choice without a place gets that of its backend's first device.
unfoldable pub placed_again : List BackendCandidate → RuntimeSelection → RuntimeSelection
placed_again candidates cached =
    if not (is_some cached.device_index) && not (str_eq cached.selection.resolved cpu)
    then record cached {
      device_index =
          index_of (
            find (λ (c : BackendCandidate). str_eq c.backend cached.selection.resolved) candidates);
    }
    else cached

abbrev wanted : Option String → BackendCandidate → Bool
wanted none c = true
wanted (some requested) c = str_eq c.backend requested

abbrev or_else : Option String → Option String → Option String
or_else none other = other
or_else (some s) other = some s

abbrev first_backend : List BackendCandidate → Option String
first_backend [] = none
first_backend (c ∷ cs) = some c.backend

abbrev first_text : List String → Option String
first_text [] = none
first_text (s ∷ ss) = some s

unfoldable pub accelerated_candidates : Option String → Discovery → List BackendCandidate
accelerated_candidates forced d = keep (wanted forced) (drop 1 d.candidates)

unfoldable pub requested_backend : Option String → Discovery → Option String
unfolding accelerated_candidates
requested_backend forced d =
    or_else forced (
      or_else (first_backend (accelerated_candidates forced d))
        (first_text d.declared_accelerators))

module _ {B : Type 0} (benchmark : BackendCandidate → B → Result ProbeTiming String × B) where
  -- The calls of `benchmark` in the loop, with their answers.
  unfoldable pub measure : List BackendCandidate → B → List Measured × B
  measure [] b = ([], b)
  measure (c ∷ cs) b =
      let (answer, b₁) = benchmark c b in
      let (rest, b₂) = measure cs b₁ in (record { candidate = c; answer = answer } ∷ rest, b₂)

  module _ (codec : CacheCodec) (io : CacheIo) (cache_key_of : Machine → String) where
    -- The last step: what can be cached is written, with its key put into the answer.
    unfoldable pub finish :
        Option String
        → Discovery
        → List String
        → RuntimeSelection
        → Option codec.Bytes
        → RuntimeSelection × Option codec.Bytes
    finish forced d failures result file =
        if not (is_some forced) && d.machine.cacheable && is_empty failures
        then (let keyed = record result { cache_key = some (cache_key_of d.machine) } in
            (keyed, write_runtime_cache codec io (cache_key_of d.machine) keyed file))
        else (result, file)

    -- From `candidates[0]`, the CPU, on; of no candidates that is a panic, `none`.
    unfoldable pub probe :
        List BackendCandidate
        → Option String
        → Discovery
        → Option codec.Bytes
        → B
        → Option (Result RuntimeSelection String × Option codec.Bytes × B)
    unfolding measure finish select_measured accelerated_candidates requested_backend
    probe [] forced d file b = none
    probe (first ∷ others) forced d file b =
        let (answer, b₁) = benchmark first b in
        elim answer [
          | err reason ↦ some (err (concat ("cpu probe failed: " ∷ reason ∷ [])), file, b₁)
          | ok cpu_timing ↦
              let (measured, b₂) = measure (accelerated_candidates forced d) b₁ in
              let result =
                select_measured (requested_backend forced d) d.capabilities d.accelerator_failures
                  cpu_timing measured in
              let failures = (record_probes measured (no_probes d.accelerator_failures)).failures in
              let (answered, file') = finish forced d failures result file in
              some (ok answered, file', b₂)
        ]

    unfoldable pub probe_all :
        Option String
        → Discovery
        → Option codec.Bytes
        → B
        → Option (Result RuntimeSelection String × Option codec.Bytes × B)
    unfolding probe
    probe_all forced d file b = probe d.candidates forced d file b

    -- What the cache answers, where it may be asked.
    unfoldable pub cached_choice :
        Option String → Discovery → Option codec.Bytes → Option RuntimeSelection
    cached_choice forced d file =
        if not (is_some forced) && d.machine.cacheable && is_empty d.accelerator_failures
        then read_runtime_cache codec file (cache_key_of d.machine)
        else none

    unfoldable pub select_discovered :
        Option String
        → Discovery
        → Option codec.Bytes
        → B
        → Option (Result RuntimeSelection String × Option codec.Bytes × B)
    unfolding unavailable cached_choice placed_again probe_all
    select_discovered forced d file b = elim (unavailable forced d) [
      | some degraded ↦ some (ok degraded, file, b)
      | none ↦ elim (cached_choice forced d file) [
        | some cached ↦ some (ok (placed_again d.candidates cached), file, b)
        | none ↦ probe_all forced d file b
      ]
    ]

    -- `discover` is what the closure returns, `none` if it panics.
    unfoldable pub select_runtime_with :
        Option String
        → Option Discovery
        → Option codec.Bytes
        → B
        → Option (Result RuntimeSelection String × Option codec.Bytes × B)
    unfolding select_discovered
    select_runtime_with forced discover file b = elim (is_text cpu (normalized forced)) [
      | true ↦ some (ok forced_cpu_runtime, file, b)
      | false ↦ elim discover [
        | none ↦ none
        | some d ↦ select_discovered (normalized forced) d file b
      ]
    ]
