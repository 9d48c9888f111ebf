-- ===== src/Backend/Runtime/Fastest.antt =====
-- The choice between the candidates against what was measured.
use julie_semantic_sidecar.Prelude.{
  ℕ, ◌≤◌, ◌<◌, String, str_eq, not, false, ltb, if◌then◌else◌, Bool-cases, Option-cases, ◌≡◌, refl,
  sym, ap, ◌∙◌, subst, ◌⊎◌, inl, inr, List, [], ◌∷◌, Option, none, some, Result, ok, err,
  Result-cases, All, Among, here, there, arith,
}
use julie_semantic_sidecar.Health.{BackendCapabilities}
use julie_semantic_sidecar.Backend.Selection.{
  cpu, BackendCandidate, selection, cpu_selection, degraded_to_cpu,
}
use julie_semantic_sidecar.Backend.Runtime.{
  ProbeTiming, total, RuntimeSelection, Measured, Probing, is_faster, record_probe, record_probes,
  disable_failed, without_winner, choose, select_measured,
}

abbrev pub NotBelow : ℕ → Result ProbeTiming String → Type 0
NotBelow bound (ok timing) = bound ≤ total timing
NotBelow bound (err reason) = Unit

abbrev Below : ℕ → Option (BackendCandidate × ProbeTiming) → Type 0
Below bound none = Unit
Below bound (some (c, timing)) = bound ≤ total timing

faster_lem :
    (bound : ℕ) (c : BackendCandidate) (timing : ProbeTiming)
    (f : Option (BackendCandidate × ProbeTiming))
    → Below bound (if is_faster timing f then some (c, timing) else f)
    → Below bound f × (bound ≤ total timing)
unfolding is_faster
faster_lem bound c timing none b = (tt, b)
faster_lem bound c timing (some (d, current)) b =
    elim (Bool-cases (ltb (total timing) (total current))) [
      | inl less ↦ let low : bound ≤ total timing = rw (less) at b in (ground arith, low)
      | inr more ↦ let low : bound ≤ total current = rw (more) at b in (low, ground arith)
    ]

probe-Below :
    (bound : ℕ) (m : Measured) (s : Probing)
    → Below bound (record_probe m s).fastest
    → Below bound s.fastest × NotBelow bound m.answer
unfolding record_probe
probe-Below bound m s b = elim (Result-cases m.answer) [
  | inl (timing, e) ↦
      rw (e) (faster_lem bound m.candidate timing s.fastest (rw (e, record_probe) at b))
  | inr (x, e) ↦ rw (e) (rw (e, record_probe) at b, tt)
]

-- What wins is no slower than anything measured.
fastest-Below :
    (ms : List Measured) (s : Probing) (c : BackendCandidate) (timing : ProbeTiming)
    → (record_probes ms s).fastest ≡ some (c, timing)
    → Below (total timing) s.fastest × All (λ m. NotBelow (total timing) m.answer) ms
unfolding record_probes
fastest-Below [] s c timing e = (subst (Below (total timing)) (sym e) (omega arith), tt)
fastest-Below (m ∷ ms) s c timing e =
    let (b, rest) = fastest-Below ms (record_probe m s) c timing e in
    let (b', first) = probe-Below (total timing) m s b in (b', (first, rest))

abbrev unwrap :
    BackendCandidate × ProbeTiming
    → Option (BackendCandidate × ProbeTiming)
    → BackendCandidate × ProbeTiming
unwrap p none = p
unwrap p (some q) = q

probe_origin :
    (m : Measured) (s : Probing) (c : BackendCandidate) (timing : ProbeTiming)
    → (record_probe m s).fastest ≡ some (c, timing)
    → (s.fastest ≡ some (c, timing)) ⊎ ((m.candidate ≡ c) × (m.answer ≡ ok timing))
unfolding record_probe
probe_origin m s c timing e = elim (Result-cases m.answer) [
  | inr (x, h) ↦ inl (rw (h, record_probe) at e)
  | inl (t, h) ↦ elim (Bool-cases (is_faster t s.fastest)) [
    | inr slow ↦ inl (rw (h, record_probe, slow) at e)
    | inl fast ↦
        let now : some (m.candidate, t) ≡ some (c, timing) = rw (h, record_probe, fast) at e in
        inr (ap (λ o. (unwrap (c, timing) o).0) now, h ∙ ap (λ o. ok (unwrap (c, timing) o).1) now)
  ]
]

-- What wins was measured.
fastest_origin :
    (ms : List Measured) (s : Probing) (c : BackendCandidate) (timing : ProbeTiming)
    → (record_probes ms s).fastest ≡ some (c, timing)
    → (s.fastest ≡ some (c, timing))
      ⊎ ((m : Measured) × Among m ms × (m.candidate ≡ c) × (m.answer ≡ ok timing))
unfolding record_probes
fastest_origin [] s c timing e = inl e
fastest_origin (m ∷ ms) s c timing e = elim (fastest_origin ms (record_probe m s) c timing e) [
  | inr (n, place, same, answer) ↦ inr (n, there place, same, answer)
  | inl won ↦ elim (probe_origin m s c timing won) [
    | inl before ↦ inl before
    | inr (same, answer) ↦ inr (m, here refl, same, answer)
  ]
]

probe_none :
    (bound : ℕ) (m : Measured) (s : Probing)
    → (record_probe m s).fastest ≡ none
    → (s.fastest ≡ none) × NotBelow bound m.answer
unfolding record_probe is_faster
probe_none bound m s e = elim (Result-cases m.answer) [
  | inr (x, h) ↦ (rw (h, record_probe) at e, rw (h) tt)
  | inl (t, h) ↦ elim (Option-cases s.fastest) [
    | inl first ↦ absurd (ground arith)
    | inr (w, held) ↦ absurd (ground arith)
  ]
]

fastest_none :
    (bound : ℕ) (ms : List Measured) (s : Probing)
    → (record_probes ms s).fastest ≡ none
    → (s.fastest ≡ none) × All (λ m. NotBelow bound m.answer) ms
unfolding record_probes
fastest_none bound [] s e = (e, tt)
fastest_none bound (m ∷ ms) s e =
    let (e', rest) = fastest_none bound ms (record_probe m s) e in
    let (e'', first) = probe_none bound m s e' in (e'', (first, rest))

-- What a choice rests on: a measured accelerator that beats the CPU and is beaten by none, or the CPU,
-- which no measured accelerator beats.
pub data IsBest (ms : List Measured) (cpu_timing : ProbeTiming) (r : RuntimeSelection)
    : Type 0 where
  accelerator :
      (m : Measured) (timing : ProbeTiming)
      → Among m ms
      → m.answer ≡ ok timing
      → total timing < total cpu_timing
      → All (λ n. NotBelow (total timing) n.answer) ms
      → (r.selection.resolved ≡ m.candidate.backend)
        × (r.device ≡ m.candidate.device)
        × (r.device_index ≡ m.candidate.device_index)
        × (r.selection.accelerated ≡ not (str_eq r.selection.resolved cpu))
      → IsBest ms cpu_timing r
  floor :
      All (λ n. NotBelow (total cpu_timing) n.answer) ms
      → (r.selection.resolved ≡ cpu)
        × (r.device ≡ cpu)
        × (r.device_index ≡ none)
        × (r.selection.accelerated ≡ false)
      → IsBest ms cpu_timing r

NotBelow-weaken :
    (a b : ℕ) (ms : List Measured)
    → a ≤ b
    → All (λ n. NotBelow b n.answer) ms
    → All (λ n. NotBelow a n.answer) ms
NotBelow-weaken a b [] h all = tt
NotBelow-weaken a b (m ∷ ms) h (first, rest) =
    (weaken m.answer first, NotBelow-weaken a b ms h rest)
  where
    weaken : (r : Result ProbeTiming String) → NotBelow b r → NotBelow a r
    weaken (ok timing) n = omega arith
    weaken (err reason) n = tt

without_winner_floor :
    (requested : Option String) (failures : List String) (capabilities : BackendCapabilities)
    → let r = without_winner requested failures capabilities in
      (r.selection.resolved ≡ cpu)
      × (r.device ≡ cpu)
      × (r.device_index ≡ none)
      × (r.selection.accelerated ≡ false)
unfolding without_winner cpu_selection degraded_to_cpu selection
without_winner_floor none failures capabilities = (refl, refl, refl, refl)
without_winner_floor (some requested) failures capabilities = (refl, refl, refl, refl)

-- Whatever the probes measured, in whatever order: an accelerator is chosen only if it was measured to
-- be faster than the CPU and no candidate was measured to be faster than it; the CPU is chosen only if
-- no candidate was measured to be faster than the CPU. A candidate whose probe failed is never chosen.
pub select_measured-IsBest :
    (requested : Option String) (capabilities : BackendCapabilities) (failures : List String)
    (cpu_timing : ProbeTiming) (ms : List Measured)
    → IsBest ms cpu_timing (select_measured requested capabilities failures cpu_timing ms)
unfolding select_measured choose degraded_to_cpu selection
select_measured-IsBest requested capabilities failures cpu_timing ms =
    let start : Probing = record {
      fastest = none;
      failures = failures;
      usable_backends = [];
      failed_backends = [];
    } in
    let s = record_probes ms start in
    elim (Option-cases s.fastest) [
      | inl lost ↦
          rw (lost, choose)
            (floor (fastest_none (total cpu_timing) ms start lost).1 (
              without_winner_floor requested s.failures
                (disable_failed s.usable_backends s.failed_backends capabilities)))
      | inr ((c, timing), won) ↦
          let below = (fastest-Below ms start c timing won).1 in
          elim (Bool-cases (ltb (total timing) (total cpu_timing))) [
            | inr slow ↦
                rw (won, slow, choose)
                  (floor (NotBelow-weaken (total cpu_timing) (total timing) ms (ground arith) below)
                    (refl, refl, refl, refl))
            | inl fast ↦ elim (fastest_origin ms start c timing won) [
              | inl early ↦ absurd (ground arith)
              | inr (m, place, same, answer) ↦
                  rw (won, fast, choose)
                    (accelerator m timing place answer (ground arith) below (
                      ap (λ d. d.backend) (sym same),
                      ap (λ d. d.device) (sym same),
                      ap (λ d. d.device_index) (sym same),
                      refl,
                    ))
            ]
          ]
    ]
