-- ===== src/Sanitize/Tests.antt =====
-- The unit tests of src/sanitize.rs, and instances of the laws.
use julie_semantic_sidecar.Prelude.{◌≡◌, refl, false}
use julie_semantic_sidecar.Sanitize.{trim, is_empty, sanitize}
use julie_semantic_sidecar.Sanitize.Laws.{HasNoNul, sanitize_clean}

source_tests :
    (sanitize "fn main() {}" ≡ "fn main() {}")
    × (sanitize "" ≡ "[empty]")
    × (sanitize "  \t\n " ≡ "[empty]")
    × (sanitize "  a  b  " ≡ "  a  b  ")
unfolding sanitize trim is_empty
source_tests = (refl, refl, refl, refl)

sanitize_clean_example : HasNoNul (sanitize "a b") × (is_empty (trim (sanitize "a b")) ≡ false)
sanitize_clean_example = sanitize_clean "a b"
