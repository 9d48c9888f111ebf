-- ===== src/Backend/Select/Steps.antt =====
-- The steps of a choice: what may be asked, what is measured, and what is taken again.
use text.Mathlib.TextEquality.{eq_iff}
use julie_semantic_sidecar.Prelude.{
  map, find, ◌++◌, String, str_eq, Bool, true, false, not, ◌||◌, ◌&&◌, Bool-cases, ◌≡◌, ◌≢◌, refl,
  ap, ◌∙◌, ◌⊎◌, inl, inr, if◌then◌else◌, List, [], ◌∷◌, keep, is_empty, Option, none, some, Result,
  ok, err, arith,
}
use julie_semantic_sidecar.Prelude.Calls.{Calls, no_more, called}
use julie_semantic_sidecar.Prelude.Str.{is_some, join}
use julie_semantic_sidecar.Backend.Selection.{cpu, metal, vulkan, cuda, BackendCandidate}
use julie_semantic_sidecar.Backend.Discovery.{Discovery}
use julie_semantic_sidecar.Backend.Runtime.{
  ProbeTiming, RuntimeSelection, Measured, Probing, record_probe, record_probes,
}
use julie_semantic_sidecar.Backend.Runtime.Fastest.{IsBest, accelerator, floor}
use julie_semantic_sidecar.Backend.Select.{
  degraded_runtime, is_text, has_backend, unavailable, placed_again, wanted, measure, index_of,
}

pub IsBest-keyed :
    (ms : List Measured) (t : ProbeTiming) (r : RuntimeSelection) (key : Option String)
    → IsBest ms t r
    → IsBest ms t (record r { cache_key = key })
IsBest-keyed ms t r key (accelerator m timing a b c d e) = accelerator m timing a b c d e
IsBest-keyed ms t r key (floor a b) = floor a b

-- No backend has that name, or no candidate has that backend.
abbrev pub IsMissing : String → Discovery → Type 0
IsMissing requested d =
    ((requested ≢ metal) × (requested ≢ vulkan) × (requested ≢ cuda))
    ⊎ (has_backend requested d.candidates ≡ false)

-- Nothing was forced; or what was forced is a backend that some candidate has.
abbrev pub IsMet : Option String → Discovery → Type 0
IsMet none d = Unit
IsMet (some requested) d =
    ((requested ≡ metal) ⊎ ((requested ≡ vulkan) ⊎ (requested ≡ cuda)))
    × (has_backend requested d.candidates ≡ true)

-- Which candidates are measured, beside the CPU: all, or those of the backend that was forced.
abbrev pub fits : Option String → BackendCandidate → Bool
fits none c = true
fits (some requested) c = str_eq c.backend requested

abbrev pub as_measured : BackendCandidate × Result ProbeTiming String → Measured
as_measured (c, answer) = record { candidate = c; answer = answer }

-- Every measurement succeeded.
abbrev pub all_answered : List (BackendCandidate × Result ProbeTiming String) → Bool
all_answered [] = true
all_answered ((c, ok timing) ∷ answers) = all_answered answers
all_answered ((c, err reason) ∷ answers) = false

-- An earlier choice that is taken again: a missing place is that of the first device of its backend,
-- and the rest is as it was.
abbrev pub IsAgain : List BackendCandidate → RuntimeSelection → RuntimeSelection → Type 0
IsAgain candidates cached taken =
    (taken ≡ record cached { device_index = taken.device_index })
    × ((taken.device_index ≡ cached.device_index)
        ⊎ ((cached.device_index ≡ none)
            × (taken.device_index
                ≡ index_of (
                    find (λ (c : BackendCandidate). str_eq c.backend cached.selection.resolved)
                      candidates))))

pub placed_again-IsAgain :
    (candidates : List BackendCandidate) (cached : RuntimeSelection)
    → IsAgain candidates cached (placed_again candidates cached)
unfolding placed_again
placed_again-IsAgain candidates cached =
    elim (Bool-cases
      (not (is_some cached.device_index) && not (str_eq cached.selection.resolved cpu))) [
        | inr kept ↦ rw (kept, placed_again) (refl, inl refl)
        | inl moved ↦
            let placeless : cached.device_index ≡ none =
              is_some_none cached.device_index (ground arith) in
            rw (moved, placed_again) (refl, inr (placeless, refl))
      ]
  where
    is_some_none : {A : Type 0} (o : Option A) → is_some o ≡ false → o ≡ none
    is_some_none none h = refl
    is_some_none (some a) h = absurd (ground arith)

pub keep-fits :
    (forced : Option String) (cs : List BackendCandidate)
    → keep (wanted forced) cs ≡ keep (fits forced) cs
keep-fits none cs = refl
keep-fits (some requested) cs = refl

-- The loop over the measurements notes a failure exactly where one failed.
pub is_empty-failures :
    (answers : List (BackendCandidate × Result ProbeTiming String)) (s : Probing)
    → is_empty (record_probes (map as_measured answers) s).failures
      ≡ (is_empty s.failures && all_answered answers)
unfolding record_probes record_probe
is_empty-failures [] s = ground arith
is_empty-failures ((c, ok timing) ∷ answers) s = is_empty-failures answers _
is_empty-failures ((c, err reason) ∷ answers) s =
    is_empty-failures answers _
    ∙ ap (λ b. b && all_answered answers) (grown s.failures _)
    ∙ ground arith
  where
    grown : (ss : List String) (t : String) → is_empty (ss ++ t ∷ []) ≡ false
    grown [] t = refl
    grown (s ∷ ss) t = refl

unknown_lem :
    (r : String)
    → not (str_eq r metal || str_eq r vulkan || str_eq r cuda) ≡ true
    → (r ≢ metal) × (r ≢ vulkan) × (r ≢ cuda)
unknown_lem r h = (
  λ e. absurd (ground (arith, eq_iff r metal)),
  λ e. absurd (ground (arith, eq_iff r vulkan)),
  λ e. absurd (ground (arith, eq_iff r cuda)),
)

known_lem :
    (r : String)
    → not (str_eq r metal || str_eq r vulkan || str_eq r cuda) ≡ false
    → (r ≡ metal) ⊎ ((r ≡ vulkan) ⊎ (r ≡ cuda))
known_lem r h = elim (Bool-cases (str_eq r metal)) [
  | inl same ↦ inl ((eq_iff r metal).0 same)
  | inr differs ↦ elim (Bool-cases (str_eq r vulkan)) [
    | inl same ↦ inr (inl ((eq_iff r vulkan).0 same))
    | inr differs' ↦ inr (inr ((eq_iff r cuda).0 (ground arith)))
  ]
]

pub is_text_lem : (s : String) (t : Option String) → is_text s t ≡ true → t ≡ some s
is_text_lem s none h = absurd (ground arith)
is_text_lem s (some t) h = ap some ((eq_iff t s).0 h)

-- A request that is refused is refused for a reason, and answered with the CPU.
pub unavailable_lem :
    (forced : Option String) (d : Discovery)
    → ((unavailable forced d ≡ none) × IsMet forced d)
      ⊎ ((requested reason : String) × (forced ≡ some requested)
          × IsMissing requested d
          × (unavailable forced d ≡ some (degraded_runtime requested reason)))
unfolding unavailable
unavailable_lem none d = inl (refl, tt)
unavailable_lem (some requested) d =
    elim (Bool-cases
      (not (str_eq requested metal || str_eq requested vulkan || str_eq requested cuda))) [
        | inl unknown ↦ inr (
          requested,
          "unknown forced backend",
          refl,
          inl (unknown_lem requested unknown),
          rw unknown refl,
        )
        | inr known ↦ elim (Bool-cases (not (has_backend requested d.candidates))) [
          | inl missing ↦
              let reason : String =
                if is_empty d.accelerator_failures
                then "requested backend is unavailable"
                else join "; " d.accelerator_failures in
              inr (requested, reason, refl, inr (ground arith), rw (known, missing) refl)
          | inr there_is ↦
              inl (rw (known, there_is) refl, (known_lem requested known, ground arith))
        ]
      ]

module _ {B : Type 0} (benchmark : BackendCandidate → B → Result ProbeTiming String × B) where
  -- The loop calls the benchmark on each candidate in turn, and has its answers.
  pub measure-Calls :
      (cs : List BackendCandidate) (b : B)
      → (answers : List (BackendCandidate × Result ProbeTiming String)) × Calls benchmark cs b
          answers
          (measure benchmark cs b).1
        × ((measure benchmark cs b).0 ≡ map as_measured answers)
  unfolding measure
  measure-Calls [] b = ([], no_more, refl)
  measure-Calls (c ∷ cs) b =
      let (answers, calls, same) = measure-Calls cs (benchmark c b).1 in
      (
        (c, (benchmark c b).0) ∷ answers,
        called calls,
        ap (λ ms. record { candidate = c; answer = (benchmark c b).0 } ∷ ms) same,
      )
