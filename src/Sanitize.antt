-- ===== src/Sanitize.antt =====
-- src/sanitize.rs: what the engine does to a text before anything else sees it. A text is a list of
-- characters; `trim` is that of Rust's `str`, over Unicode's white space.
pub mod Laws
pub mod Tests
use Prim.Native.Char.{code}
use Prim.Native.String.{String, [], ◌∷◌}
use julie_semantic_sidecar.Prelude.{
  ℕ, Bool, true, false, ◌&&◌, ◌||◌, ◌==◌, leb, str_eq, if◌then◌else◌,
}

abbrev pub empty_placeholder : String
empty_placeholder = "[empty]"

-- Unicode's White_Space.
unfoldable pub is_whitespace : ℕ → Bool
is_whitespace c =
    (leb 9 c && leb c 13)
    || c == 32
    || c == 0x85
    || c == 0xa0
    || c == 0x1680
    || (leb 0x2000 c && leb c 0x200a)
    || c == 0x2028
    || c == 0x2029
    || c == 0x202f
    || c == 0x205f
    || c == 0x3000

unfoldable pub trim_start : String → String
trim_start [] = []
trim_start (c ∷ s) = if is_whitespace (code c) then trim_start s else c ∷ s

unfoldable pub is_empty : String → Bool
is_empty [] = true
is_empty (c ∷ s) = false

unfoldable pub trim_end : String → String
unfolding is_empty
trim_end [] = []
trim_end (c ∷ s) =
    let rest = trim_end s in if is_whitespace (code c) && is_empty rest then [] else c ∷ rest

unfoldable pub trim : String → String
unfolding trim_start trim_end is_whitespace
trim s = trim_end (trim_start s)

-- `text.chars().filter(|c| *c != '\0').collect()`
unfoldable pub strip_nul : String → String
strip_nul [] = []
strip_nul (c ∷ s) = let rest = strip_nul s in if code c == 0 then rest else c ∷ rest

unfoldable pub sanitize : String → String
unfolding strip_nul
sanitize text =
    let stripped = strip_nul text in
    if is_empty (trim stripped) then empty_placeholder else stripped
