-- ===== src/Sanitize/Laws.antt =====
-- What every sanitized text is.
use Prim.Native.Char.{code}
use Prim.Native.String.{String, [], ◌∷◌}
use julie_semantic_sidecar.Prelude.{◌≡◌, ◌≢◌, refl, inl, inr, false, Bool-cases, arith}
use julie_semantic_sidecar.Sanitize.{trim, is_empty, strip_nul, sanitize}

abbrev pub HasNoNul : String → Type 0
HasNoNul [] = Unit
HasNoNul (c ∷ s) = (code c ≢ 0) × HasNoNul s

strip_nul-HasNoNul : (s : String) → HasNoNul (strip_nul s)
unfolding strip_nul
strip_nul-HasNoNul [] = tt
strip_nul-HasNoNul (c ∷ s) = ground (arith, strip_nul-HasNoNul s)

strip_nul_of_HasNoNul : (s : String) → HasNoNul s → strip_nul s ≡ s
unfolding strip_nul
strip_nul_of_HasNoNul [] h = refl
strip_nul_of_HasNoNul (c ∷ s) h = ground (arith, strip_nul_of_HasNoNul s h.1)

-- Whatever the input, the sanitized text has no NUL and is not blank.
pub sanitize_clean : (s : String) → HasNoNul (sanitize s) × (is_empty (trim (sanitize s)) ≡ false)
unfolding sanitize
sanitize_clean s = elim (Bool-cases (is_empty (trim (strip_nul s)))) [
  | inl blank ↦ rw (blank, sanitize) (unfold trim is_empty in (omega arith, refl))
  | inr full ↦ rw (full, sanitize) (strip_nul-HasNoNul s, full)
]

-- A text that has no NUL and is not blank is passed on unchanged.
pub sanitize_id : (s : String) → HasNoNul s → is_empty (trim s) ≡ false → sanitize s ≡ s
unfolding sanitize
sanitize_id s h full = let same = strip_nul_of_HasNoNul s h in rw (same, full)

-- Sanitizing twice is sanitizing once.
pub sanitize_idempotent : (s : String) → sanitize (sanitize s) ≡ sanitize s
sanitize_idempotent s = let clean = sanitize_clean s in sanitize_id (sanitize s) clean.0 clean.1
