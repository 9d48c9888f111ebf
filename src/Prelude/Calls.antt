-- ===== src/Prelude/Calls.antt =====
-- A function with a state that is called on each item of a list, in order.
use mathlib.Core.List.{List, [], ◌∷◌}

-- The calls, each item with its answer, and the state before the first and after the last.
pub data Calls {A S R : Type 0} (f : A → S → R × S) : List A → S → List (A × R) → S → Type 0 where
  no_more : {s : S} → Calls f [] s [] s
  called :
      {a : A} {rest : List A} {s t : S} {answers : List (A × R)}
      → Calls f rest (f a s).1 answers t
      → Calls f (a ∷ rest) s ((a, (f a s).0) ∷ answers) t
