-- ===== src/Engine/Isolate/Total.antt =====
-- `isolate` for any encode operation.
use mathlib.Core.List.{append_assoc, append-nil}
use julie_semantic_sidecar.Prelude.{
  ℕ, zero, suc, ◌/◌, ◌<◌, Bool-cases, ◌==◌, ◌≡◌, refl, sym, ap, subst, ◌∙◌, inl, inr, List, [], ◌∷◌,
  ◌++◌, Option, some, Result, ok, err, length, length-append, length-take, length-drop, take, drop,
  replicate, length-replicate, All, All-append, arith, take-append-drop,
}
use julie_semantic_sidecar.EngineTrait.{EngineError}
use julie_semantic_sidecar.Engine.Isolate.{
  EncodeFailure, item, systemic, done, split, broken, judge, join, isolate_on, isolate,
}

module _ {F T : Type 0} (f32_zero : F) (dims : ℕ)
    (encode : List T → Result (List (List F)) EncodeFailure)
    (widths : (xs : List T) (vs : List (List F))
      → encode xs ≡ ok vs
      → All (λ v. length v ≡ dims) vs) where
  -- What the caller of `isolate` sees: a vector of `dims` for each item, or the error of an encode that failed
  -- as a whole, on some slice of the items.
  pub data Outcome (items : List T) (r : Option (Result (List (List F)) EngineError)) : Type 0 where
    answered :
        (vs : List (List F))
        → r ≡ some (ok vs)
        → length vs ≡ length items
        → All (λ v. length v ≡ dims) vs
        → Outcome items r
    failed :
        (e : EngineError) (before slice after : List T)
        → r ≡ some (err e)
        → items ≡ before ++ (slice ++ after)
        → encode slice ≡ err (systemic e)
        → Outcome items r

  -- The three cases of an attempt.
  data Attempt (items : List T) : Type 0 where
    whole :
        (vs : List (List F))
        → judge (length items) (encode items) ≡ done vs
        → length vs ≡ length items
        → All (λ v. length v ≡ dims) vs
        → Attempt items
    halve : judge (length items) (encode items) ≡ split → Attempt items
    dead :
        (e : EngineError)
        → judge (length items) (encode items) ≡ broken e
        → encode items ≡ err (systemic e)
        → Attempt items

  attempt : (items : List T) → Attempt items
  unfolding judge
  attempt items = go (encode items) refl
    where
      go : (r : Result (List (List F)) EncodeFailure) → encode items ≡ r → Attempt items
      go (ok vs) e = elim (Bool-cases (length vs == length items)) [
        | inl t ↦ whole vs (rw (e, judge) (rw t)) (ground arith) (widths items vs e)
        | inr f ↦ halve (rw (e, judge) (rw f))
      ]
      go (err item) e = halve (rw (e, judge))
      go (err (systemic x)) e = dead x (rw (e, judge)) e

  join-Outcome :
      (xs ys : List T) (a b : Option (Result (List (List F)) EngineError))
      → Outcome xs a
      → Outcome ys b
      → Outcome (xs ++ ys) (join a b)
  unfolding join
  join-Outcome xs ys a b (answered vs e l w) (answered ws e' l' w') =
      answered (vs ++ ws) (rw (e, e', join))
        (omega (arith, length-append vs ws, length-append xs ys, l, l'))
        (All-append (λ v. length v ≡ dims) vs ws w w')
  join-Outcome xs ys a b (answered vs e l w) (failed x before s after e' part h) =
      failed x (xs ++ before) s after (rw (e, e', join))
        (ap (◌++◌ xs) part ∙ sym (append_assoc xs before (s ++ after))) h
  join-Outcome xs ys a b (failed x before s after e part h) _ =
      failed x before s (after ++ ys) (rw (e, join)) (ap (λ l. l ++ ys) part ∙ simp append_assoc) h

  isolate_on-Outcome :
      (fuel : ℕ) (items : List T)
      → length items < fuel
      → Outcome items (isolate_on f32_zero dims encode fuel items)
  unfolding isolate_on
  isolate_on-Outcome zero items h = absurd (omega arith)
  isolate_on-Outcome (suc fuel) [] h = answered [] refl refl tt
  isolate_on-Outcome (suc fuel) (x ∷ xs) h =
      let items = x ∷ xs in
      let half = length items / 2 in
      elim (attempt items) [
        | whole vs e l w ↦ answered vs (rw (e, isolate_on)) l w
        | dead x e same ↦ failed x [] items [] (rw (e, isolate_on)) (sym (append-nil items)) same
        | halve e ↦ elim (Bool-cases (length items == 1)) [
          | inl one ↦
              answered (replicate dims f32_zero ∷ []) (rw (e, one, isolate_on)) (ground arith)
                (length-replicate dims f32_zero, tt)
          | inr more ↦
              rw (e, more, isolate_on)
                (subst
                  (λ l. Outcome l (
                    join (isolate_on f32_zero dims encode fuel (take half items))
                      (isolate_on f32_zero dims encode fuel (drop half items))))
                  (take-append-drop half items)
                  (join-Outcome (take half items) (drop half items) _ _
                    (isolate_on-Outcome fuel (take half items)
                      (ground (arith, length-take half items)))
                    (isolate_on-Outcome fuel (drop half items)
                      (ground (arith, length-drop half items)))))
        ]
      ]

  -- Where the vectors of an encode have `dims` entries, so have all that bisection answers with. It
  -- ends: it answers with exactly one vector for each item, or with the error of an encode
  -- of some slice of the items that failed as a whole, and in no other way.
  pub isolate-Outcome : (items : List T) → Outcome items (isolate f32_zero dims encode items)
  unfolding isolate
  isolate-Outcome items = isolate_on-Outcome (suc (length items)) items (omega arith)
