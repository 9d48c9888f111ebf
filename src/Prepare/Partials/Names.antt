-- ===== src/Prepare/Partials/Names.antt =====
-- The names of partial downloads: a name tells the model that it was made for.
use Prim.Native.Char.{Char, char, code}
use Prim.Native.String
use text.Mathlib.TextEquality.{eq_iff}
use text.Mathlib.TextLemmas.{
  nil-append, cons-append, append-nil, append_assoc, append_cancel_right, cons-ne-nil,
}
use julie_semantic_sidecar.Prelude.{
  ℕ, String, str_eq, concat, true, false, ◌==◌, Bool-cases, ◌≡◌, refl, sym, ap, ◌∙◌, inl, inr, [],
  ◌∷◌, none, some, arith,
}
use julie_semantic_sidecar.Prelude.Str.{strip_prefix, strip_suffix, rsplit_once, contains_code}
use julie_semantic_sidecar.Sanitize.{is_empty as is_empty_text}
use julie_semantic_sidecar.Prepare.Partials.{
  prefix_text, suffix_text, partial_prefix, model_part, model_of_inner, without_suffix,
  model_of_partial,
}

infixr 5 ◌⧺◌
abbrev ◌⧺◌ : String → String → String
s ⧺ t = String.◌++◌ s t

strip_prefix-append : (p s : String) → strip_prefix p (p ⧺ s) ≡ some s
unfolding strip_prefix
strip_prefix-append String.[] s = ap some (nil-append s)
strip_prefix-append (String.◌∷◌ c p) s =
    rw (cons-append c p s, strip_prefix) (ground (arith, strip_prefix-append p s))

never_shorter : (c : Char) (s t : String) → str_eq (String.◌∷◌ c (s ⧺ t)) t ≡ false
never_shorter c s t = elim (Bool-cases (str_eq (String.◌∷◌ c (s ⧺ t)) t)) [
  | inr differ ↦ differ
  | inl same ↦
      let e : String.◌∷◌ c s ⧺ t ≡ String.[] ⧺ t =
        cons-append c s t ∙ (eq_iff (String.◌∷◌ c (s ⧺ t)) t).0 same ∙ sym (nil-append t) in
      absurd (cons-ne-nil c s (append_cancel_right (String.◌∷◌ c s) String.[] t e))
]

strip_suffix_self : (t : String) → strip_suffix t t ≡ some String.[]
unfolding strip_suffix
strip_suffix_self String.[] = refl
strip_suffix_self (String.◌∷◌ c t) =
    rw ((eq_iff (String.◌∷◌ c t) (String.◌∷◌ c t)).1 refl, strip_suffix) refl

strip_suffix-append : (s t : String) → strip_suffix t (s ⧺ t) ≡ some s
unfolding strip_suffix
strip_suffix-append String.[] t = rw (nil-append t) (strip_suffix_self t)
strip_suffix-append (String.◌∷◌ c s) t =
    rw (cons-append c s t, strip_suffix, never_shorter c s t, strip_suffix-append s t) refl

rsplit_once-none : (n : ℕ) (s : String) → contains_code n s ≡ false → rsplit_once n s ≡ none
unfolding rsplit_once
rsplit_once-none n String.[] h = refl
rsplit_once-none n (String.◌∷◌ c s) h =
    let other : (code c == n) ≡ false = ground arith in
    rw (rsplit_once-none n s (ground arith), other) refl

rsplit_once-append :
    (n : ℕ) (s t : String) (a b : String)
    → rsplit_once n t ≡ some (a, b)
    → rsplit_once n (s ⧺ t) ≡ some (s ⧺ a, b)
unfolding rsplit_once
rsplit_once-append n String.[] t a b h = rw (nil-append t, nil-append a) h
rsplit_once-append n (String.◌∷◌ c s) t a b h =
    rw (cons-append c s t, cons-append c s a, rsplit_once, rsplit_once-append n s t a b h) refl

abbrev dot : Char
dot = char 46 tt

rsplit_once-here :
    (n : ℕ) (c : Char) (s : String)
    → (code c == n) ≡ true
    → contains_code n s ≡ false
    → rsplit_once n (String.◌∷◌ c s) ≡ some ("", s)
unfolding rsplit_once
rsplit_once-here n c s same h = rw (rsplit_once-none n s h, same) refl

inner_lem :
    (model_id random : String)
    → is_empty_text model_id ≡ false
    → is_empty_text random ≡ false
    → contains_code 46 random ≡ false
    → model_part (rsplit_once 46 (model_id ⧺ ("." ⧺ random))) ≡ some model_id
inner_lem m r some_id some_random undotted =
    let dotted : rsplit_once 46 ("." ⧺ r) ≡ some ("", r) =
      ap (rsplit_once 46) (cons-append dot "" r ∙ ap (λ t. String.◌∷◌ dot t) (nil-append r))
      ∙ rsplit_once-here 46 dot r refl undotted in
    rw (rsplit_once-append 46 m ("." ⧺ r) "" r dotted, append-nil m, some_id, some_random) refl

named_lem :
    (inner : String)
    → model_of_partial (prefix_text ⧺ (inner ⧺ suffix_text)) ≡ model_part (rsplit_once 46 inner)
unfolding model_of_partial
named_lem inner =
    ap (λ o. model_of_inner (without_suffix o))
      (strip_prefix-append prefix_text (inner ⧺ suffix_text))
    ∙ ap model_of_inner (strip_suffix-append inner suffix_text)

-- The name that a download of a model gives to its partial file, whatever the random part without a dot
-- that stands in it, tells the model's id again, also if the id has dots.
pub model_of_partial-partial_prefix :
    (model_id random : String)
    → is_empty_text model_id ≡ false
    → is_empty_text random ≡ false
    → contains_code 46 random ≡ false
    → model_of_partial (concat (partial_prefix model_id ∷ random ∷ suffix_text ∷ []))
      ≡ some model_id
unfolding model_of_partial partial_prefix
model_of_partial-partial_prefix m r some_id some_random undotted =
    let name : (prefix_text ⧺ (m ⧺ ".")) ⧺ (r ⧺ suffix_text)
        ≡ prefix_text ⧺ ((m ⧺ ("." ⧺ r)) ⧺ suffix_text) =
      append_assoc prefix_text (m ⧺ ".") (r ⧺ suffix_text)
      ∙ ap (λ t. prefix_text ⧺ t)
          (sym (append_assoc (m ⧺ ".") r suffix_text)
            ∙ ap (λ t. t ⧺ suffix_text) (append_assoc m "." r)) in
    ap model_of_partial name
    ∙ named_lem (m ⧺ ("." ⧺ r))
    ∙ inner_lem m r some_id some_random undotted
