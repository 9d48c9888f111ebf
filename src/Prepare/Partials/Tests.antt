-- ===== src/Prepare/Partials/Tests.antt =====
-- A directory with two partial downloads, of which one has a running owner, and an old one without a
-- model.
use julie_semantic_sidecar.Prelude.{
  String, str_eq, true, not, concat, ◌≡◌, refl, List, [], ◌∷◌, some, Result, ok, here,
}
use julie_semantic_sidecar.Sanitize.{is_empty as is_empty_text}
use julie_semantic_sidecar.Prelude.Str.{starts_with, ends_with, rsplit_once}
use julie_semantic_sidecar.Prepare.Partials.{
  suffix_text, partial_prefix, model_of_partial, Entry, entries, removed, Io, clean_stale_partials,
}
use julie_semantic_sidecar.Prepare.Partials.Laws.{IsStale, clean_stale_partials-IsStale}
use julie_semantic_sidecar.Prepare.Partials.Names.{model_of_partial-partial_prefix}

abbrev entry : String → Result Entry String
entry name = ok (record { path = name; name = name; is_utf8 = true })

abbrev list : List (Result Entry String)
list =
    entry ".julie-prepare-a.1.x7.partial"
    ∷ entry "a.1.lock"
    ∷ entry ".julie-prepare-b.y3.partial"
    ∷ entry "b.lock"
    ∷ entry ".julie-prepare-old.partial"
    ∷ []

-- The lock of b is held.
abbrev io : Io
io = record {
  read_dir = entries list;
  try_hold = λ path. not (str_eq path "b.lock");
  remove_file = λ path. removed;
}

one_deleted : (clean_stale_partials io).1 ≡ ".julie-prepare-a.1.x7.partial" ∷ []
unfolding clean_stale_partials model_of_partial starts_with ends_with rsplit_once is_empty_text
one_deleted = refl

clean_stale_partials-IsStale_example : IsStale io list ".julie-prepare-a.1.x7.partial"
unfolding clean_stale_partials model_of_partial starts_with ends_with rsplit_once is_empty_text
clean_stale_partials-IsStale_example =
    clean_stale_partials-IsStale io list ".julie-prepare-a.1.x7.partial" refl (here refl)

model_of_partial-partial_prefix_example :
    model_of_partial (concat (partial_prefix "qwen3-0.6b-f16" ∷ "x7Yz" ∷ suffix_text ∷ []))
    ≡ some "qwen3-0.6b-f16"
unfolding is_empty_text
model_of_partial-partial_prefix_example =
    model_of_partial-partial_prefix "qwen3-0.6b-f16" "x7Yz" refl refl refl
