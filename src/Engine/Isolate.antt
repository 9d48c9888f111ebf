-- ===== src/Engine/Isolate.antt =====
-- `isolate`: bisection of a failing batch down to the inputs that cannot be encoded. `T` is the type
-- of an input and `F` that of an f32; `encode` is the operation that is isolated over.
pub mod Total
pub mod Items
use julie_semantic_sidecar.Prelude.{
  ℕ, zero, suc, ◌/◌, Bool, true, false, ◌==◌, if◌then◌else◌, String, List, [], ◌∷◌, ◌++◌, Option,
  none, some, Result, ok, err, is_empty, length, take, drop, replicate,
}
use julie_semantic_sidecar.EngineTrait.{EngineError, engine_error, exhausted_error}

pub data EncodeFailure : Type 0 where
  item : EncodeFailure
  systemic : EngineError → EncodeFailure

-- `EncodeFailure::systemic` and `EncodeFailure::resource_exhausted`
abbrev pub systemic_failure : String → String → EncodeFailure
systemic_failure kind message = systemic (engine_error kind message)

abbrev pub exhausted_failure : String → String → EncodeFailure
exhausted_failure kind message = systemic (exhausted_error kind message)

-- The three ways on from an encode attempt: its vectors are the answer, the slice is split, or the
-- request fails.
pub data Verdict (F : Type 0) : Type 0 where
  done : List (List F) → Verdict F
  split : Verdict F
  broken : EngineError → Verdict F

module _ {F : Type 0} where
  unfoldable pub judge : ℕ → Result (List (List F)) EncodeFailure → Verdict F
  judge n (ok vectors) = if length vectors == n then done vectors else split
  judge n (err item) = split
  judge n (err (systemic e)) = broken e

  -- The answers of the two halves, one after the other; an error of either one is the answer.
  unfoldable pub join :
      Option (Result (List (List F)) EngineError)
      → Option (Result (List (List F)) EngineError)
      → Option (Result (List (List F)) EngineError)
  join none b = none
  join (some (err e)) b = some (err e)
  join (some (ok vs)) none = none
  join (some (ok vs)) (some (err e)) = some (err e)
  join (some (ok vs)) (some (ok ws)) = some (ok (vs ++ ws))

module _ {F T : Type 0} (f32_zero : F) (dims : ℕ)
    (encode : List T → Result (List (List F)) EncodeFailure) where
  -- `fuel` bounds the depth of the recursion, and `none` means that it ran out.
  unfoldable pub isolate_on : ℕ → List T → Option (Result (List (List F)) EngineError)
  unfolding judge join
  isolate_on zero items = none
  isolate_on (suc fuel) items = elim (is_empty items) [
    | true ↦ some (ok [])
    | false ↦ elim (judge (length items) (encode items)) [
      | done vectors ↦ some (ok vectors)
      | broken e ↦ some (err e)
      | split ↦ elim (length items == 1) [
        | true ↦ some (ok (replicate dims f32_zero ∷ []))
        | false ↦
            join (isolate_on fuel (take (length items / 2) items))
              (isolate_on fuel (drop (length items / 2) items))
      ]
    ]
  ]

  -- The recursion is no deeper than the slice is long.
  unfoldable pub isolate : List T → Option (Result (List (List F)) EngineError)
  unfolding isolate_on
  isolate items = isolate_on (suc (length items)) items
