-- ===== src/Prelude/Str.antt =====
-- Rust's `str`: prefixes and suffixes, searches, splits and joins, and the case of ASCII letters.
use Prim.Native.Char.{Char, code}
use Prim.Native.String.{String}
use Prim.Native.Nat.{ℕ, zero, suc, ◌-◌}
use mathlib.Core.Bool.{Bool, true, false, ◌&&◌, ◌||◌}
use mathlib.Core.Option.{Option, none, some}
use mathlib.Core.List.{List, [], ◌∷◌}
use julie_semantic_sidecar.Prelude.Tests.{ltb, leb, ◌==◌, if◌then◌else◌}
use julie_semantic_sidecar.Prelude.Text.{str_eq, concat}

-- What is left of a text after a prefix.
unfoldable pub strip_prefix : String → String → Option String
strip_prefix String.[] s = some s
strip_prefix (String.◌∷◌ p ps) String.[] = none
strip_prefix (String.◌∷◌ p ps) (String.◌∷◌ c s) =
    if code p == code c then strip_prefix ps s else none

abbrev pub is_some {ℓ} : {A : Type ℓ} → Option A → Bool
is_some none = false
is_some (some a) = true

unfoldable pub starts_with : String → String → Bool
unfolding strip_prefix
starts_with s prefix = is_some (strip_prefix prefix s)

abbrev pub after_first : Char → Option String → Option String
after_first c none = none
after_first c (some s) = some (String.◌∷◌ c s)

-- What is left of a text before a suffix.
unfoldable pub strip_suffix : String → String → Option String
strip_suffix suffix String.[] = if str_eq String.[] suffix then some String.[] else none
strip_suffix suffix (String.◌∷◌ c s) =
    if str_eq (String.◌∷◌ c s) suffix then some String.[] else after_first c (strip_suffix suffix s)

unfoldable pub ends_with : String → String → Bool
unfolding strip_suffix
ends_with s suffix = is_some (strip_suffix suffix s)

unfoldable pub contains : String → String → Bool
unfolding starts_with
contains String.[] part = starts_with String.[] part
contains (String.◌∷◌ c s) part = starts_with (String.◌∷◌ c s) part || contains s part

abbrev pub contains_code : ℕ → String → Bool
contains_code n String.[] = false
contains_code n (String.◌∷◌ c s) = code c == n || contains_code n s

abbrev pub split_at : Char → ℕ → String → Option (String × String) → Option (String × String)
split_at c n s none = if code c == n then some (String.[], s) else none
split_at c n s (some (a, b)) = some (String.◌∷◌ c a, b)

-- `rsplit_once` at a character: at the last one of that code.
unfoldable pub rsplit_once : ℕ → String → Option (String × String)
rsplit_once n String.[] = none
rsplit_once n (String.◌∷◌ c s) = split_at c n s (rsplit_once n s)

abbrev add_first : Char → List String → List String
add_first c [] = String.◌∷◌ c String.[] ∷ []
add_first c (s ∷ ss) = String.◌∷◌ c s ∷ ss

-- `split` at a character.
unfoldable pub split : ℕ → String → List String
split n String.[] = String.[] ∷ []
split n (String.◌∷◌ c s) =
    let rest = split n s in if code c == n then String.[] ∷ rest else add_first c rest

unfoldable pub join : String → List String → String
join sep [] = ""
join sep (s ∷ []) = s
join sep (s ∷ t ∷ ss) = concat (s ∷ sep ∷ join sep (t ∷ ss) ∷ [])

nth_char : ℕ → String → Char → Char
nth_char i String.[] c = c
nth_char zero (String.◌∷◌ d s) c = d
nth_char (suc i) (String.◌∷◌ d s) c = nth_char i s c

ascii_lower : Char → Char
unfolding nth_char
ascii_lower c =
    if leb 65 (code c) && leb (code c) 90
    then nth_char (code c - 65) "abcdefghijklmnopqrstuvwxyz" c
    else c

unfoldable pub to_ascii_lowercase : String → String
unfolding ascii_lower
to_ascii_lowercase String.[] = String.[]
to_ascii_lowercase (String.◌∷◌ c s) = String.◌∷◌ (ascii_lower c) (to_ascii_lowercase s)

unfoldable pub eq_ignore_ascii_case : String → String → Bool
unfolding to_ascii_lowercase
eq_ignore_ascii_case s t = str_eq (to_ascii_lowercase s) (to_ascii_lowercase t)

-- The order of texts, which is that of their bytes in UTF-8.
unfoldable pub str_lt : String → String → Bool
str_lt s String.[] = false
str_lt String.[] (String.◌∷◌ d t) = true
str_lt (String.◌∷◌ c s) (String.◌∷◌ d t) =
    if code c == code d then str_lt s t else ltb (code c) (code d)

all_codes : (ℕ → Bool) → String → Bool
all_codes p String.[] = true
all_codes p (String.◌∷◌ c s) = p (code c) && all_codes p s

-- `bytes().all(...)`, for a test that no byte from 128 on passes.
unfoldable pub all_bytes : (ℕ → Bool) → String → Bool
unfolding all_codes
all_bytes p s = all_codes p s
