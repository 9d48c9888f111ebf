-- ===== src/Truncate/Stability.antt =====
-- What `fit` returns, for closures whose results do not depend on what they record.
use julie_semantic_sidecar.Prelude.{
  ℕ, zero, suc, ◌≤◌, ◌<◌, String, ◌≡◌, refl, sym, ap, ◌∙◌, ◌⊎◌, inl, inr, true, leb, Bool-cases,
  List, [], ◌∷◌, length, length-take, take, ℕ_discrete, arith,
}
use julie_semantic_sidecar.Truncate.{body_budget, same_tokens, shrink, fit}

same_tokens-eq : (a b : List ℕ) → same_tokens a b ≡ true → a ≡ b
unfolding same_tokens
same_tokens-eq [] [] h = refl
same_tokens-eq [] (y ∷ b) h = cc
same_tokens-eq (x ∷ a) [] h = cc
same_tokens-eq (x ∷ a) (y ∷ b) h = ground (arith, same_tokens-eq a b)

same_tokens_self : (a : List ℕ) → same_tokens a a ≡ true
unfolding same_tokens
same_tokens_self [] = refl
same_tokens_self (x ∷ a) = ground (arith, same_tokens_self a)

module _ {S : Type 0} (tokenize : String → S → List ℕ × S) (detokenize : List ℕ → S → String × S)
    (tok : String → List ℕ) (detok : List ℕ → String)
    (tok_pure : (t : String) (s : S) → (tokenize t s).0 ≡ tok t)
    (detok_pure : (l : List ℕ) (s : S) → (detokenize l s).0 ≡ detok l) where
  -- Detokenizing these tokens and tokenizing the text again gives them back.
  abbrev pub IsStable : List ℕ → Type 0
  IsStable l = tok (detok l) ≡ l

  -- `out` is the longest non-empty stable prefix of `tokens` of at most `budget` of them, or empty if
  -- there is none.
  pub record IsLongestStable (tokens : List ℕ) (budget : ℕ) (out : String) : Type 0 where
    pub kept : ℕ
    pub within : kept ≤ budget
    pub text :
        ((kept ≡ 0) × (out ≡ ""))
        ⊎ ((0 < kept) × (out ≡ detok (take kept tokens)) × IsStable (take kept tokens))
    pub longest : (j : ℕ) → kept < j → j ≤ budget → ¬ IsStable (take j tokens)

  longest_down :
      (tokens : List ℕ) (k : ℕ) (out : String)
      → ¬ IsStable (take (suc k) tokens)
      → IsLongestStable tokens k out
      → IsLongestStable tokens (suc k) out
  longest_down tokens k out un l = record {
    kept = l.kept;
    within = omega (arith, l.within);
    text = l.text;
    longest = λ j a b. elim (ℕ_discrete j (suc k)) [
      | yes e ↦ rw e un
      | no ne ↦ l.longest j a (omega arith)
    ];
  }

  -- One round of the loop: the test compares what the pure tokenizer gives.
  again-tok :
      (l : List ℕ) (s : S) → (tokenize (detokenize l s).0 (detokenize l s).1).0 ≡ tok (detok l)
  again-tok l s = tok_pure _ _ ∙ ap tok (detok_pure l s)

  shrink-IsLongestStable :
      (k : ℕ) (tokens : List ℕ) (s : S)
      → IsLongestStable tokens k (shrink tokenize detokenize k tokens s).0
  unfolding shrink
  shrink-IsLongestStable zero tokens s = record {
    kept = 0;
    within = omega arith;
    text = inl (refl, refl);
    longest = λ j a b. absurd (omega arith);
  }
  shrink-IsLongestStable (suc k) tokens s =
      let front = take (suc k) tokens in
      let candidate = detokenize front s in
      let again = tokenize candidate.0 candidate.1 in
      elim (Bool-cases (same_tokens again.0 front)) [
        | inl same ↦
            rw (same, shrink)
              (record {
                kept = suc k;
                within = omega arith;
                text = inr (
                  omega arith,
                  detok_pure front s,
                  sym (again-tok front s) ∙ same_tokens-eq again.0 front same,
                );
                longest = λ j a b. absurd (omega arith);
              })
        | inr other ↦
            rw (other, shrink)
              (longest_down tokens k _
                (λ stable.
                  let e : again.0 ≡ front = again-tok front s ∙ stable in
                  let t : same_tokens again.0 front ≡ true = rw e (same_tokens_self front) in cc)
                (shrink-IsLongestStable k tokens again.1))
      ]

  abbrev budget : ℕ → ℕ → ℕ → ℕ
  budget m e o = body_budget m e o

  -- For closures whose results do not depend on what they record: a text within the budget comes back
  -- unchanged; otherwise the result is the text of the longest stable prefix of its tokens that fits,
  -- and empty if there is none.
  pub fit_lem :
      (x : String) (m e o : ℕ) (s : S)
      → ((length (tok x) ≤ budget m e o) × ((fit tokenize detokenize x m e o s).0 ≡ x))
        ⊎ ((budget m e o < length (tok x))
            × IsLongestStable (tok x) (budget m e o) (fit tokenize detokenize x m e o s).0)
  unfolding fit
  fit_lem x m e o s =
      let tokens = tokenize x s in
      elim (Bool-cases (leb (length tokens.0) (budget m e o))) [
        | inl fits ↦ rw (fits, fit) (inl (ground (arith, tok_pure x s, fits), refl))
        | inr over ↦
            rw (over, fit)
              (inr (
                ground (arith, tok_pure x s, over),
                rw (← tok_pure x s) (shrink-IsLongestStable (budget m e o) tokens.0 tokens.1),
              ))
      ]

  longest-length :
      (tokens : List ℕ) (k : ℕ) (out : String)
      → tok "" ≡ []
      → IsLongestStable tokens k out
      → length (tok out) ≤ k
  longest-length tokens k out none l = elim l.text [
    | inl (_, blank) ↦ rw (blank, none) (omega arith)
    | inr (_, same, stable) ↦ rw (same, stable, length-take l.kept tokens) (omega (arith, l.within))
  ]

  -- For closures whose results do not depend on what they record, and if the empty text has no tokens:
  -- what is embedded never has more than the body budget.
  pub length-fit-le :
      (x : String) (m e o : ℕ) (s : S)
      → tok "" ≡ []
      → length (tok (fit tokenize detokenize x m e o s).0) ≤ body_budget m e o
  length-fit-le x m e o s none = elim (fit_lem x m e o s) [
    | inl (fits, same) ↦ rw (same) fits
    | inr (over, stable) ↦ longest-length (tok x) (budget m e o) _ none stable
  ]

  -- For closures whose results do not depend on what they record, and if the empty text has no tokens:
  -- fitting twice is fitting once.
  pub fit_idempotent :
      (x : String) (m e o : ℕ) (s s' : S)
      → tok "" ≡ []
      → let once = (fit tokenize detokenize x m e o s).0 in
        (fit tokenize detokenize once m e o s').0 ≡ once
  fit_idempotent x m e o s s' none =
      let short = length-fit-le x m e o s none in
      elim (fit_lem (fit tokenize detokenize x m e o s).0 m e o s') [
        | inl (fits, same) ↦ same
        | inr (over, stable) ↦ absurd (omega (arith, short, over))
      ]
