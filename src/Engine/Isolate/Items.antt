-- ===== src/Engine/Isolate/Items.antt =====
-- `isolate` where a batch is encoded if every item of it can be.
use mathlib.Core.List.{map-append}
use julie_semantic_sidecar.Prelude.{
  ℕ, zero, suc, ◌/◌, ◌<◌, true, Bool-cases, ◌==◌, ◌≡◌, refl, sym, ap, ◌∙◌, ◌⊎◌, inl, inr, List, [],
  ◌∷◌, map, Option, none, some, Result, ok, err, length, length-map, length-take, length-drop, take,
  drop, replicate, arith, take-append-drop,
}
use julie_semantic_sidecar.Engine.Isolate.{
  EncodeFailure, item, done, split, judge, join, isolate_on, isolate,
}

module _ {F T : Type 0} (f32_zero : F) (dims : ℕ) (encode_one : T → Option (List F)) where
  -- The vector that an item gets.
  abbrev pub isolated : T → List F
  isolated x = elim (encode_one x) [ none ↦ replicate dims f32_zero | some v ↦ v ]

  abbrev prepend :
      Option (List F) → Result (List (List F)) EncodeFailure → Result (List (List F)) EncodeFailure
  prepend none r = err item
  prepend (some v) (ok vs) = ok (v ∷ vs)
  prepend (some v) (err e) = err item

  -- A batch encode that fails as an item failure if any item of it does.
  abbrev pub encode_batch : List T → Result (List (List F)) EncodeFailure
  encode_batch [] = ok []
  encode_batch (x ∷ xs) = prepend (encode_one x) (encode_batch xs)

  encode_batch-cases :
      (xs : List T) → (encode_batch xs ≡ ok (map isolated xs)) ⊎ (encode_batch xs ≡ err item)
  encode_batch-cases [] = inl refl
  encode_batch-cases (x ∷ xs) = ground (arith, encode_batch-cases xs)

  module _ (encode : List T → Result (List (List F)) EncodeFailure)
      (agrees : (xs : List T) → encode xs ≡ encode_batch xs) where
    judge-cases :
        (xs : List T)
        → (judge (length xs) (encode xs) ≡ done (map isolated xs))
          ⊎ ((judge (length xs) (encode xs) ≡ split) × (encode_batch xs ≡ err item))
    unfolding judge
    judge-cases xs = elim (encode_batch-cases xs) [
      | inl e ↦ inl (rw (agrees xs, e, judge) (ground (arith, length-map isolated xs)))
      | inr e ↦ inr (rw (agrees xs, e, judge), e)
    ]

    isolate_on-items :
        (fuel : ℕ) (xs : List T)
        → length xs < fuel
        → isolate_on f32_zero dims encode fuel xs ≡ some (ok (map isolated xs))
    unfolding isolate_on join
    isolate_on-items zero xs h = absurd (omega arith)
    isolate_on-items (suc fuel) [] h = refl
    isolate_on-items (suc fuel) (x ∷ xs) h =
        let items = x ∷ xs in
        let half = length items / 2 in
        let left = take half items in
        let right = drop half items in
        elim (judge-cases items) [
          | inl e ↦ rw (e, isolate_on)
          | inr (e, failed) ↦ elim (Bool-cases (length items == 1)) [
            | inl one ↦ rw (e, one, isolate_on) (ap (λ l. some (ok l)) (single xs one failed))
            | inr more ↦
                rw (e, more, isolate_on)
                  (rw
                    (
                      isolate_on-items fuel left (ground (arith, length-take half items)),
                      isolate_on-items fuel right (ground (arith, length-drop half items)),
                    )
                    (ap (λ l. some (ok l))
                      (sym (map-append isolated left right)
                        ∙ ap (map isolated) (take-append-drop half items))))
          ]
        ]
      where
        single :
            (ys : List T)
            → (length (x ∷ ys) == 1) ≡ true
            → encode_batch (x ∷ ys) ≡ err item
            → replicate dims f32_zero ∷ [] ≡ map isolated (x ∷ ys)
        single [] one failed = ground arith
        single (y ∷ ys) one failed = ground arith

    -- Where an encode of a slice gives each of its items the item's own vector, and fails for its items
    -- if any of them has none, a poison item costs nobody else: every item that can be encoded gets its own vector, in its own
    -- place, and every other one a zero vector of `dims`.
    pub isolate-items :
        (xs : List T) → isolate f32_zero dims encode xs ≡ some (ok (map isolated xs))
    unfolding isolate
    isolate-items xs = isolate_on-items (suc (length xs)) xs (omega arith)
