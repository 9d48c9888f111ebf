-- ===== src/Truncate/Tests.antt =====
-- The unit tests of src/truncate.rs over its toy tokenizer, where "§" is two tokens and the second
-- one alone has no text, and instances of the laws.
use Prim.Native.Char.{code}
use Prim.Native.String.{String, [], ◌∷◌}
use mathlib.Core.List.{List}
use julie_semantic_sidecar.Prelude.{
  ℕ, ◌≤◌, ◌<◌, ◌≡◌, ◌⊎◌, refl, ◌==◌, if◌then◌else◌, concat, length, map,
}
use julie_semantic_sidecar.Truncate.{body_budget, fit}
use julie_semantic_sidecar.Truncate.Stability.{IsLongestStable, fit_lem, fit_idempotent}

abbrev tok : String → List ℕ
tok [] = List.[]
tok (c ∷ s) =
    let rest = tok s in
    if code c == 0xa7 then List.◌∷◌ 1000 (List.◌∷◌ 0 rest) else List.◌∷◌ (code c) rest

abbrev piece : ℕ → String
piece t =
    if t == 0
    then ""
    else if t == 1000
    then "§"
    else if t == b'a'
    then "a"
    else if t == b'b'
    then "b"
    else "c"

abbrev detok : List ℕ → String
detok l = concat (map piece l)

abbrev tokenize : String → Unit {0} → List ℕ × Unit {0}
tokenize t s = (tok t, s)

abbrev detokenize : List ℕ → Unit {0} → String × Unit {0}
detokenize l s = (detok l, s)

abbrev fit_text : String → ℕ → ℕ → ℕ → String
fit_text t m e o = (fit tokenize detokenize t m e o tt).0

source_tests :
    (body_budget 32768 1 1 ≡ 32766)
    × (body_budget 1 1 2 ≡ 0)
    × (fit_text "abc" 5 0 2 ≡ "abc")
    × (fit_text "abca" 5 0 2 ≡ "abc")
    × (fit_text "ab§cb" 3 0 0 ≡ "ab")
    × (fit_text "abcabc" 2 1 1 ≡ "")
unfolding fit
source_tests = (refl, refl, refl, refl, refl, refl)

fit_lem_example :
    ((length (tok "ab§cb") ≤ body_budget 3 0 0) × (fit_text "ab§cb" 3 0 0 ≡ "ab§cb"))
    ⊎ ((body_budget 3 0 0 < length (tok "ab§cb"))
        × IsLongestStable tokenize detokenize tok detok
            (λ t s. refl)
            (λ l s. refl)
            (tok "ab§cb")
            (body_budget 3 0 0)
            (fit_text "ab§cb" 3 0 0))
fit_lem_example = fit_lem tokenize detokenize tok detok (λ t s. refl) (λ l s. refl) "ab§cb" 3 0 0 tt

fit_idempotent_example : fit_text (fit_text "ab§cb" 3 0 0) 3 0 0 ≡ fit_text "ab§cb" 3 0 0
fit_idempotent_example =
    fit_idempotent tokenize detokenize tok detok (λ t s. refl) (λ l s. refl) "ab§cb" 3 0 0 tt tt
      refl
