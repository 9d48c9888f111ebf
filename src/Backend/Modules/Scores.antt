-- ===== src/Backend/Modules/Scores.antt =====
-- Which CPU module the scores single out.
use julie_semantic_sidecar.Prelude.{
  concat, ℕ, ◌≤◌, ◌<◌, String, true, false, ◌&&◌, Bool-cases, Option-cases, ◌≡◌, refl, ap, ◌∙◌,
  subst, ◌⊎◌, inl, inr, List, [], ◌∷◌, is_empty, Option, none, some, Result, ok, err, All, Among,
  here, there, arith,
}
use julie_semantic_sidecar.Prelude.Str.{join}
use julie_semantic_sidecar.Backend.Modules.{
  ModuleFile, ℤ, pos, negsuc, gtb, Scoring, beats, record_score, record_scores, pick,
}

-- What a score counts for; 0 and below do not count.
abbrev pub value : Result ℤ String → ℕ
value (ok (pos n)) = n
value (ok (negsuc n)) = 0
value (err reason) = 0

abbrev top : Option (ModuleFile × ℤ) → ℕ
top none = 0
top (some (m, score)) = value (ok score)

abbrev IsCounted : Option (ModuleFile × ℤ) → Type 0
IsCounted none = Unit
IsCounted (some (m, score)) = 0 < value (ok score)

-- What a step of the loop keeps: its best is the old one or the new module's score, and is no lower
-- than either.
abbrev Stepped :
    ModuleFile → Result ℤ String → Option (ModuleFile × ℤ) → Option (ModuleFile × ℤ) → Type 0
Stepped m r before after =
    IsCounted after
    × (top before ≤ top after)
    × (value r ≤ top after)
    × ((after ≡ before) ⊎ ((score : ℤ) × (r ≡ ok score) × (after ≡ some (m, score))))

taken_lem :
    (n : ℕ) (best : Option (ModuleFile × ℤ))
    → IsCounted best
    → (gtb (pos n) (pos 0) && beats (pos n) best) ≡ true
    → (0 < n) × (top best ≤ n)
taken_lem n none h e = (ground arith, ground arith)
taken_lem n (some (m, pos k)) h e = (ground arith, ground arith)
taken_lem n (some (m, negsuc k)) h e = (ground arith, ground arith)

passed_lem :
    (n : ℕ) (best : Option (ModuleFile × ℤ))
    → IsCounted best
    → (gtb (pos n) (pos 0) && beats (pos n) best) ≡ false
    → n ≤ top best
passed_lem n none h e = ground arith
passed_lem n (some (m, pos k)) h e = ground arith
passed_lem n (some (m, negsuc k)) h e = absurd (ground arith)

record_score-Stepped :
    (m : ModuleFile) (r : Result ℤ String) (s : Scoring)
    → IsCounted s.best
    → Stepped m r s.best (record_score m r s).best
unfolding record_score
record_score-Stepped m (err reason) s h = (h, ground arith, ground arith, inl refl)
record_score-Stepped m (ok (negsuc n)) s h = (h, ground arith, ground arith, inl refl)
record_score-Stepped m (ok (pos n)) s h =
    elim (Bool-cases (gtb (pos n) (pos 0) && beats (pos n) s.best)) [
      | inl better ↦
          let (counts, over) = taken_lem n s.best h better in
          rw (better, record_score) (counts, over, omega arith, inr (pos n, refl, refl))
      | inr worse ↦
          let under = passed_lem n s.best h worse in
          rw (worse, record_score) (h, omega arith, under, inl refl)
    ]

-- What the loop keeps is a module that scored it, or what there was; nothing scored more.
record_scores-IsCounted :
    (answers : List (ModuleFile × Result ℤ String)) (s : Scoring)
    → IsCounted s.best
    → let after = (record_scores answers s).best in
      IsCounted after
      × (top s.best ≤ top after)
      × All (λ (a : ModuleFile × Result ℤ String). value a.1 ≤ top after) answers
      × ((after ≡ s.best)
          ⊎ ((m : ModuleFile) × (score : ℤ) × Among (m, ok score) answers
              × (after ≡ some (m, score))))
unfolding record_scores
record_scores-IsCounted [] s h = (h, omega arith, tt, inl refl)
record_scores-IsCounted (a ∷ rest) s h =
    let (counted, grows, over, from) = record_score-Stepped a.0 a.1 s h in
    let (counted', grows', all, from') =
      record_scores-IsCounted rest (record_score a.0 a.1 s) counted in
    (
      counted',
      omega arith,
      (omega arith, all),
      elim from' [
        | inr (m, score, place, e) ↦ inr (m, score, there place, e)
        | inl same ↦ elim from [
          | inl kept ↦ inl (same ∙ kept)
          | inr (score, answer, e) ↦ inr (a.0, score, here (ap (λ r. (a.0, r)) answer), same ∙ e)
        ]
      ],
    )

-- The module that the scores single out: the one that scored most, if any scored above 0, and the base
-- module otherwise.
pub data IsPicked (answers : List (ModuleFile × Result ℤ String)) (base : Option ModuleFile)
    (chosen : ModuleFile) : Type 0 where
  variant :
      (score : ℤ)
      → Among (chosen, ok score) answers
      → 0 < value (ok score)
      → All (λ (a : ModuleFile × Result ℤ String). value a.1 ≤ value (ok score)) answers
      → IsPicked answers base chosen
  fallback :
      base ≡ some chosen
      → All (λ (a : ModuleFile × Result ℤ String). value a.1 ≤ 0) answers
      → IsPicked answers base chosen

abbrev no_scores : Scoring
no_scores = record { best = none; scoring_failures = [] }

pick-some :
    (s : Scoring) (m : ModuleFile) (score : ℤ) (base : Option ModuleFile)
    → s.best ≡ some (m, score)
    → pick s base ≡ ok m
unfolding pick
pick-some s m score base e = rw (e, pick)

pick_base :
    (s : Scoring) (m : ModuleFile) (base : Option ModuleFile)
    → s.best ≡ none
    → base ≡ some m
    → pick s base ≡ ok m
unfolding pick
pick_base s m base e f = rw (e, f, pick)

pick_nothing :
    (s : Scoring) (base : Option ModuleFile)
    → s.best ≡ none
    → base ≡ none
    → (reason : String) × (pick s base ≡ err reason)
unfolding pick
pick_nothing s base e f = elim (Bool-cases (is_empty s.scoring_failures)) [
  | inl quiet ↦ (
    "no supported packaged CPU backend module found beside the executable",
    rw (e, f, pick, quiet),
  )
  | inr loud ↦ (
    concat ("cannot score a packaged CPU backend module: " ∷ join ", " s.scoring_failures ∷ []),
    rw (e, f, pick, loud),
  )
]

pub pick_lem :
    (answers : List (ModuleFile × Result ℤ String)) (base : Option ModuleFile)
    → ((chosen : ModuleFile) × (pick (record_scores answers no_scores) base ≡ ok chosen)
        × IsPicked answers base chosen)
      ⊎ ((reason : String) × (pick (record_scores answers no_scores) base ≡ err reason)
          × (base ≡ none)
          × All (λ (a : ModuleFile × Result ℤ String). value a.1 ≤ 0) answers)
unfolding pick
pick_lem answers base =
    let s = record_scores answers no_scores in
    let (counted, _, all, from) = record_scores-IsCounted answers no_scores tt in
    elim from [
      | inr (m, score, place, e) ↦ inl (
        m,
        pick-some s m score base e,
        variant score place (subst IsCounted e counted) (
            subst (λ best. All (λ (a : ModuleFile × Result ℤ String). value a.1 ≤ top best) answers)
              e all),
      )
      | inl e ↦
          let low =
            subst (λ best. All (λ (a : ModuleFile × Result ℤ String). value a.1 ≤ top best) answers)
              e all in
          elim (Option-cases base) [
            | inr (m, f) ↦ inl (m, pick_base s m base e f, fallback f low)
            | inl f ↦ let (reason, g) = pick_nothing s base e f in inr (reason, g, f, low)
          ]
    ]
