-- ===== src/Backend/Select/Laws.antt =====
-- How a choice of a backend comes about.
use julie_semantic_sidecar.Prelude.{
  map, String, concat, true, false, not, ◌||◌, ◌&&◌, Bool-cases, ◌≡◌, refl, ap, ◌∙◌, subst, ◌⊎◌,
  inl, inr, List, [], ◌∷◌, keep, drop, is_empty, Option, none, some, Option-cases, Result, ok, err,
  Result-cases, arith,
}
use julie_semantic_sidecar.Prelude.Calls.{Calls}
use julie_semantic_sidecar.Prelude.Str.{is_some}
use julie_semantic_sidecar.Backend.Selection.{cpu, BackendCandidate}
use julie_semantic_sidecar.Backend.Discovery.{Machine, Discovery}
use julie_semantic_sidecar.Backend.Runtime.{
  ProbeTiming, RuntimeSelection, Measured, record_probes, no_probes, select_measured,
}
use julie_semantic_sidecar.Backend.Runtime.Fastest.{IsBest, select_measured-IsBest}
use julie_semantic_sidecar.Backend.Cache.{
  CacheCodec, CacheIo, read_runtime_cache, write_runtime_cache,
}
use julie_semantic_sidecar.Backend.Select.{
  forced_cpu_runtime, degraded_runtime, normalized, is_text, placed_again, wanted,
  accelerated_candidates, requested_backend, measure, finish, probe, probe_all, cached_choice,
  select_discovered, select_runtime_with,
}
use julie_semantic_sidecar.Backend.Select.Steps.{
  IsBest-keyed, IsMissing, IsMet, fits, as_measured, all_answered, IsAgain, placed_again-IsAgain,
  keep-fits, is_empty-failures, is_text_lem, unavailable_lem, measure-Calls,
}

module _ {B : Type 0} (benchmark : BackendCandidate → B → Result ProbeTiming String × B)
    (codec : CacheCodec) (io : CacheIo) (cache_key_of : Machine → String) where
  -- The cache has no answer, or may not be asked.
  abbrev pub IsFresh : Option String → Discovery → Option codec.Bytes → Type 0
  IsFresh forced d file =
      ((is_some forced || (not d.machine.cacheable || not (is_empty d.accelerator_failures)))
        ≡ true)
      ⊎ (read_runtime_cache codec file (cache_key_of d.machine) ≡ none)

  -- Where nothing was forced and nothing failed on a machine that can be told from others, the choice
  -- is written under the machine's key, which it carries; otherwise the cache is as it was.
  abbrev pub IsSaved :
      Option String
      → Discovery
      → List (BackendCandidate × Result ProbeTiming String)
      → RuntimeSelection
      → Option codec.Bytes
      → Option codec.Bytes
      → Type 0
  IsSaved forced d answers chosen file file' =
      let saves =
        not (is_some forced)
        && d.machine.cacheable
        && is_empty d.accelerator_failures
        && all_answered answers in
      ((saves ≡ true)
        × (chosen.cache_key ≡ some (cache_key_of d.machine))
        × (file' ≡ write_runtime_cache codec io (cache_key_of d.machine) chosen file))
      ⊎ ((saves ≡ false) × (file' ≡ file))

  -- How a choice was made, with what it left of the cache file and of the benchmark's state.
  pub data IsChosen (forced : Option String) (d : Discovery) (file : Option codec.Bytes) (b : B)
      (r : Option (Result RuntimeSelection String × Option codec.Bytes × B)) : Type 0 where
    -- The CPU was forced, and nothing was asked or measured.
    bypassed :
        normalized forced ≡ some cpu
        → r ≡ some (ok forced_cpu_runtime, file, b)
        → IsChosen forced d file b r
    -- What was forced is not to be had, and the CPU takes its place.
    refused :
        (requested reason : String)
        → normalized forced ≡ some requested
        → IsMissing requested d
        → r ≡ some (ok (degraded_runtime requested reason), file, b)
        → IsChosen forced d file b r
    -- Nothing was forced, and an earlier choice for this machine is taken again.
    remembered :
        (cached taken : RuntimeSelection)
        → forced ≡ none
        → d.machine.cacheable ≡ true
        → is_empty d.accelerator_failures ≡ true
        → read_runtime_cache codec file (cache_key_of d.machine) ≡ some cached
        → IsAgain d.candidates cached taken
        → r ≡ some (ok taken, file, b)
        → IsChosen forced d file b r
    -- The candidates were measured, and the best is taken; one that was forced, or the CPU.
    measured :
        (first : BackendCandidate) (others : List BackendCandidate) (cpu_timing : ProbeTiming)
        (answers : List (BackendCandidate × Result ProbeTiming String)) (chosen : RuntimeSelection)
        (file' : Option codec.Bytes) (b' : B)
        → d.candidates ≡ first ∷ others
        → IsMet (normalized forced) d
        → IsFresh (normalized forced) d file
        → (benchmark first b).0 ≡ ok cpu_timing
        → Calls benchmark (keep (fits (normalized forced)) others) (benchmark first b).1 answers b'
        → IsBest (map as_measured answers) cpu_timing chosen
        → IsSaved (normalized forced) d answers chosen file file'
        → r ≡ some (ok chosen, file', b')
        → IsChosen forced d file b r
    -- The CPU itself cannot be measured.
    broken :
        (first : BackendCandidate) (others : List BackendCandidate) (reason message : String)
        → d.candidates ≡ first ∷ others
        → (benchmark first b).0 ≡ err reason
        → r ≡ some (err message, file, (benchmark first b).1)
        → IsChosen forced d file b r

  finish-IsBest :
      (ms : List Measured) (t : ProbeTiming) (forced : Option String) (d : Discovery)
      (failures : List String) (r : RuntimeSelection) (file : Option codec.Bytes)
      → IsBest ms t r
      → IsBest ms t (finish benchmark codec io cache_key_of forced d failures r file).0
  unfolding finish
  finish-IsBest ms t forced d failures r file best =
      elim (Bool-cases (not (is_some forced) && d.machine.cacheable && is_empty failures)) [
        | inl keep_it ↦ rw (keep_it) (IsBest-keyed ms t r (some (cache_key_of d.machine)) best)
        | inr unkept ↦ rw (unkept) best
      ]

  probe_all_broken :
      (forced : Option String) (d : Discovery) (first : BackendCandidate)
      (others : List BackendCandidate) (file : Option codec.Bytes) (b : B) (reason : String)
      → d.candidates ≡ first ∷ others
      → (benchmark first b).0 ≡ err reason
      → probe_all benchmark codec io cache_key_of forced d file b
        ≡ some (err (concat ("cpu probe failed: " ∷ reason ∷ [])), file, (benchmark first b).1)
  unfolding probe_all probe
  probe_all_broken forced d first others file b reason some_cpu e =
      ap (λ cs. probe benchmark codec io cache_key_of cs forced d file b) some_cpu ∙ rw (e, probe)

  probe_all_measured :
      (forced : Option String) (d : Discovery) (first : BackendCandidate)
      (others : List BackendCandidate) (file : Option codec.Bytes) (b : B) (timing : ProbeTiming)
      → d.candidates ≡ first ∷ others
      → (benchmark first b).0 ≡ ok timing
      → let answers = measure benchmark (accelerated_candidates forced d) (benchmark first b).1 in
        let chosen =
          finish benchmark codec io cache_key_of forced d
            (record_probes answers.0 (no_probes d.accelerator_failures)).failures
            (select_measured
              (requested_backend forced d)
              d.capabilities
              d.accelerator_failures
              timing
              answers.0)
            file in
        probe_all benchmark codec io cache_key_of forced d file b
        ≡ some (ok chosen.0, chosen.1, answers.1)
  unfolding probe_all probe
  probe_all_measured forced d first others file b timing some_cpu e =
      ap (λ cs. probe benchmark codec io cache_key_of cs forced d file b) some_cpu ∙ rw (e, probe)

  finish-IsSaved :
      (forced : Option String) (d : Discovery)
      (answers : List (BackendCandidate × Result ProbeTiming String)) (failures : List String)
      (r : RuntimeSelection) (file : Option codec.Bytes)
      → is_empty failures ≡ (is_empty d.accelerator_failures && all_answered answers)
      → let ended = finish benchmark codec io cache_key_of forced d failures r file in
        IsSaved forced d answers ended.0 file ended.1
  unfolding finish
  finish-IsSaved forced d answers failures r file same =
      elim (Bool-cases (not (is_some forced) && d.machine.cacheable && is_empty failures)) [
        | inl keep_it ↦ rw (keep_it, finish) (inl (ground arith, refl, refl))
        | inr unkept ↦ rw (unkept, finish) (inr (ground arith, refl))
      ]

  accelerated_candidates_lem :
      (forced : Option String) (d : Discovery) (first : BackendCandidate)
      (others : List BackendCandidate)
      → d.candidates ≡ first ∷ others
      → accelerated_candidates forced d ≡ keep (fits forced) others
  unfolding accelerated_candidates
  accelerated_candidates_lem forced d first others some_cpu =
      ap (λ (cs : List BackendCandidate). keep (wanted forced) (drop 1 cs)) some_cpu
      ∙ keep-fits forced others

  probe_all-IsChosen :
      (forced : Option String) (d : Discovery) (first : BackendCandidate)
      (others : List BackendCandidate) (file : Option codec.Bytes) (b : B)
      → d.candidates ≡ first ∷ others
      → IsMet (normalized forced) d
      → IsFresh (normalized forced) d file
      → IsChosen forced d file b
          (probe_all benchmark codec io cache_key_of (normalized forced) d file b)
  probe_all-IsChosen forced d first others file b some_cpu met fresh =
      let n = normalized forced in
      let ms = measure benchmark (accelerated_candidates n d) (benchmark first b).1 in
      let failures = (record_probes ms.0 (no_probes d.accelerator_failures)).failures in
      let (answers, calls, same) =
        measure-Calls benchmark (accelerated_candidates n d) (benchmark first b).1 in
      elim (Result-cases (benchmark first b).0) [
        | inr (reason, e) ↦
            broken first others reason _ some_cpu e
              (probe_all_broken n d first others file b reason some_cpu e)
        | inl (timing, e) ↦
            let best =
              select_measured-IsBest (requested_backend n d) d.capabilities d.accelerator_failures
                timing ms.0 in
            let found =
              select_measured (requested_backend n d) d.capabilities d.accelerator_failures timing
                ms.0 in
            let chosen = (finish benchmark codec io cache_key_of n d failures found file).0 in
            let noted =
              ap
                (λ measurements.
                  is_empty (record_probes measurements (no_probes d.accelerator_failures)).failures)
                same
              ∙ is_empty-failures answers (no_probes d.accelerator_failures) in
            measured first others timing answers _ _ ms.1 some_cpu met fresh e
              (subst (λ cs. Calls benchmark cs (benchmark first b).1 answers ms.1)
                (accelerated_candidates_lem n d first others some_cpu) calls)
              (subst (λ measurements. IsBest measurements timing chosen) same
                (finish-IsBest ms.0 timing n d failures found file best))
              (finish-IsSaved n d answers failures found file noted)
              (probe_all_measured n d first others file b timing some_cpu e)
      ]

  cached_choice_lem :
      (forced : Option String) (d : Discovery) (file : Option codec.Bytes)
      (cached : RuntimeSelection)
      → cached_choice benchmark codec io cache_key_of (normalized forced) d file ≡ some cached
      → (forced ≡ none)
        × (d.machine.cacheable ≡ true)
        × (is_empty d.accelerator_failures ≡ true)
        × (read_runtime_cache codec file (cache_key_of d.machine) ≡ some cached)
  unfolding cached_choice
  cached_choice_lem none d file cached e =
      elim (Bool-cases (d.machine.cacheable && is_empty d.accelerator_failures)) [
        | inl may ↦ (refl, ground arith, ground arith, rw (may) at e)
        | inr never ↦ absurd (ground arith)
      ]
  cached_choice_lem (some value) d file cached e = absurd (ground arith)

  cached_choice-none :
      (forced : Option String) (d : Discovery) (file : Option codec.Bytes)
      → cached_choice benchmark codec io cache_key_of forced d file ≡ none
      → IsFresh forced d file
  unfolding cached_choice
  cached_choice-none forced d file e =
      elim (Bool-cases
        (not (is_some forced) && d.machine.cacheable && is_empty d.accelerator_failures)) [
          | inl may ↦ inr (rw (may) at e)
          | inr never ↦ inl (ground arith)
        ]

  pub select_runtime_with-IsChosen :
      (forced : Option String) (d : Discovery) (first : BackendCandidate)
      (others : List BackendCandidate) (file : Option codec.Bytes) (b : B)
      → d.candidates ≡ first ∷ others
      → IsChosen forced d file b
          (select_runtime_with benchmark codec io cache_key_of forced (some d) file b)
  unfolding select_runtime_with select_discovered
  select_runtime_with-IsChosen forced d first others file b some_cpu =
      elim (Bool-cases (is_text cpu (normalized forced))) [
        | inl pinned ↦
            rw (pinned, select_runtime_with)
              (bypassed (is_text_lem cpu (normalized forced) pinned) refl)
        | inr free ↦ elim (unavailable_lem (normalized forced) d) [
          | inr (requested, reason, same, missing, e) ↦
              rw (free, select_runtime_with, e, select_discovered)
                (refused requested reason same missing refl)
          | inl (unrefused, met) ↦
              elim (Option-cases
                (cached_choice benchmark codec io cache_key_of (normalized forced) d file)) [
                  | inl fresh ↦
                      rw (free, select_runtime_with, unrefused, fresh, select_discovered)
                        (probe_all-IsChosen forced d first others file b some_cpu met
                          (cached_choice-none (normalized forced) d file fresh))
                  | inr (cached, e) ↦
                      let (unforced, can, whole, stored) =
                        cached_choice_lem forced d file cached e in
                      rw (free, select_runtime_with, unrefused, e, select_discovered)
                        (remembered cached (placed_again d.candidates cached) unforced can whole
                          stored (placed_again-IsAgain d.candidates cached) refl)
                ]
        ]
      ]
