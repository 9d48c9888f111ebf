-- ===== src/Truncate.antt =====
-- src/truncate.rs: cutting a prefixed text to the model's token budget. A token is an i32, here its
-- bit pattern. The closures `tokenize` and `detokenize` may record something as they go, so each
-- passes a state of type `S` on. Token counts do not reach the word size.
pub mod Stability
pub mod Tests
use julie_semantic_sidecar.Prelude.{
  ℕ, zero, suc, ◌+◌, ◌-◌, String, Bool, true, false, ◌&&◌, ◌==◌, leb, if◌then◌else◌, List, [], ◌∷◌,
  length, take,
}

-- `saturating_sub` is subtraction on the natural numbers.
unfoldable pub body_budget : ℕ → ℕ → ℕ → ℕ
body_budget max_text_tokens eos_reserve special_token_overhead =
    max_text_tokens - (eos_reserve + special_token_overhead)

-- `==` on slices of tokens.
unfoldable pub same_tokens : List ℕ → List ℕ → Bool
same_tokens [] [] = true
same_tokens (a ∷ as') (b ∷ bs) = a == b && same_tokens as' bs
same_tokens _ _ = false

module _ {S : Type 0} (tokenize : String → S → List ℕ × S)
    (detokenize : List ℕ → S → String × S) where
  -- The loop over `kept`.
  unfoldable pub shrink : ℕ → List ℕ → S → String × S
  unfolding same_tokens
  shrink zero tokens s = ("", s)
  shrink (suc k) tokens s =
      let (candidate, s₁) = detokenize (take (suc k) tokens) s in
      let (again, s₂) = tokenize candidate s₁ in
      elim (same_tokens again (take (suc k) tokens)) [
        | true ↦ (candidate, s₂)
        | false ↦ shrink k tokens s₂
      ]

  unfoldable pub fit : String → ℕ → ℕ → ℕ → S → String × S
  unfolding body_budget shrink
  fit prefixed max_text_tokens eos_reserve special_token_overhead s =
      let budget = body_budget max_text_tokens eos_reserve special_token_overhead in
      let (tokens, s₁) = tokenize prefixed s in
      if leb (length tokens) budget then (prefixed, s₁) else shrink budget tokens s₁
