-- ===== src/Prepare/Partials.antt =====
-- Partial downloads: their names, and `clean_stale_partials`, which deletes those that no running
-- `prepare` owns. The directory and what each call answers are the parameter `Io`; what is deleted is
-- the state.
pub mod Gathered
pub mod Laws
pub mod Names
pub mod Tests
use julie_semantic_sidecar.Prelude.{
  String, str_eq, concat, Bool, true, false, not, ◌&&◌, ◌||◌, if◌then◌else◌, any, List, [], ◌∷◌,
  ◌++◌, Option, none, some, Result, ok, err,
}
use julie_semantic_sidecar.Prelude.Str.{
  strip_prefix, strip_suffix, starts_with, ends_with, rsplit_once, str_lt,
}
use julie_semantic_sidecar.Sanitize.{is_empty as is_empty_text}

abbrev pub prefix_text : String
prefix_text = ".julie-prepare-"

abbrev pub suffix_text : String
suffix_text = ".partial"

-- `partial_prefix`
unfoldable pub partial_prefix : String → String
partial_prefix model_id = concat (prefix_text ∷ model_id ∷ "." ∷ [])

-- `rsplit_once('.')`, and the two parts if neither is empty.
abbrev pub model_part : Option (String × String) → Option String
model_part none = none
model_part (some (model_id, random)) =
    if not (is_empty_text model_id) && not (is_empty_text random) then some model_id else none

abbrev pub model_of_inner : Option String → Option String
model_of_inner none = none
model_of_inner (some inner) = model_part (rsplit_once 46 inner)

abbrev pub without_suffix : Option String → Option String
without_suffix none = none
without_suffix (some rest) = strip_suffix suffix_text rest

unfoldable pub model_of_partial : String → Option String
unfolding strip_prefix
model_of_partial name = model_of_inner (without_suffix (strip_prefix prefix_text name))

-- An entry of the cache directory: its path, and its name as `to_string_lossy` makes it.
pub record Entry : Type 0 where
  pub path : String
  pub name : String
  pub is_utf8 : Bool

-- `file_stem`: the name before its last dot, if it has one after its first character.
abbrev stem_of : String → Option (String × String) → String
stem_of name none = name
stem_of name (some (before, after)) = if is_empty_text before then name else before

unfoldable pub file_stem : Entry → Option String
file_stem e = if e.is_utf8 then some (stem_of e.name (rsplit_once 46 e.name)) else none

pub data Listing : Type 0 where
  missing : Listing
  unreadable : String → Listing
  -- An entry that cannot be read is an error.
  entries : List (Result Entry String) → Listing

pub data Removal : Type 0 where
  removed absent : Removal
  failed : String → Removal

pub record Io : Type 0 where
  pub read_dir : Listing
  -- Whether `try_hold` takes the lock at this path.
  pub try_hold : String → Bool
  pub remove_file : String → Removal

pub record Found : Type 0 where
  pub attributed : List (String × String)
  pub unattributed : List String
  pub locks : List Entry

abbrev add_partial : Option String → String → Found → Found
add_partial none path s = record s { unattributed = s.unattributed ++ path ∷ [] }
add_partial (some model_id) path s = record s { attributed = s.attributed ++ (model_id, path) ∷ [] }

unfoldable pub is_lock : Entry → Bool
is_lock e = ends_with e.name ".lock"

unfoldable pub is_partial : Entry → Bool
is_partial e = starts_with e.name prefix_text && ends_with e.name suffix_text

unfoldable pub add_entry : Entry → Found → Found
unfolding is_lock is_partial model_of_partial
add_entry e s =
    if is_lock e
    then record s { locks = s.locks ++ e ∷ [] }
    else if is_partial e
    then add_partial (model_of_partial e.name) e.path s
    else s

unfoldable pub collect : List (Result Entry String) → Found → Result Found String
unfolding add_entry
collect [] s = ok s
collect (err reason ∷ rest) s = err reason
collect (ok e ∷ rest) s = collect rest (add_entry e s)

abbrev add_held : Option String → List String → List String
add_held none models = models
add_held (some model_id) models = model_id ∷ models

abbrev contains_text : String → List String → Bool
contains_text s texts = any (λ t. str_eq t s) texts

unfoldable pub insert_path : String → List String → List String
insert_path path [] = path ∷ []
insert_path path (p ∷ ps) =
    let rest = insert_path path ps in if str_lt p path then p ∷ rest else path ∷ p ∷ ps

unfoldable pub sort_paths : List String → List String
unfolding insert_path
sort_paths [] = []
sort_paths (p ∷ ps) = insert_path p (sort_paths ps)

-- The paths of the attributed partials whose model is not held; the others are passed over.
unfoldable pub unheld : List String → List (String × String) → List String
unheld held [] = []
unheld held ((model_id, path) ∷ rest) =
    let paths = unheld held rest in if contains_text model_id held then paths else path ∷ paths

abbrev sorted : Result (Unit {0}) String × List String → Result (List String) String × List String
sorted (err reason, deleted) = (err reason, deleted)
sorted (ok done, deleted) = (ok (sort_paths deleted), deleted)

abbrev nothing : Found
nothing = record { attributed = []; unattributed = []; locks = [] }

module _ (io : Io) where
  -- The models whose lock could not be taken.
  unfoldable pub held_models : List Entry → List String
  unfolding file_stem
  held_models [] = []
  held_models (e ∷ rest) =
      let models = held_models rest in
      if io.try_hold e.path then models else add_held (file_stem e) models

  unfoldable pub any_lock_held : List Entry → Bool
  any_lock_held locks = any (λ (e : Entry). not (io.try_hold e.path)) locks

  -- `remove_partial`: the paths that have been deleted, and an error that ends the call.
  unfoldable pub remove_partial : String → List String → Result (Unit {0}) String × List String
  remove_partial path deleted = elim (io.remove_file path) [
    | removed ↦ (ok tt, deleted ++ path ∷ [])
    | absent ↦ (ok tt, deleted)
    | failed reason ↦ (err reason, deleted)
  ]

  unfoldable pub remove_all : List String → List String → Result (Unit {0}) String × List String
  unfolding remove_partial
  remove_all [] deleted = (ok tt, deleted)
  remove_all (path ∷ paths) deleted =
      let (answer, now) = remove_partial path deleted in
      elim answer [ err reason ↦ (err reason, now) | ok done ↦ remove_all paths now ]

  unfoldable pub clean_found : Found → Result (List String) String × List String
  unfolding held_models any_lock_held remove_all unheld sort_paths
  clean_found s =
      let (first, deleted) = remove_all (unheld (held_models s.locks) s.attributed) [] in
      elim first [
        | err reason ↦ (err reason, deleted)
        | ok done ↦
            sorted (remove_all (if any_lock_held s.locks then [] else s.unattributed) deleted)
      ]

  abbrev collected : Result Found String → Result (List String) String × List String
  collected (err reason) = (err reason, [])
  collected (ok s) = clean_found s

  -- From the answer of `read_dir` on.
  unfoldable pub clean_listing : Listing → Result (List String) String × List String
  unfolding collect clean_found
  clean_listing missing = (ok [], [])
  clean_listing (unreadable reason) = (err reason, [])
  clean_listing (entries list) = collected (collect list nothing)

  -- The answer, and what was deleted, also where the answer is an error.
  unfoldable pub clean_stale_partials : Result (List String) String × List String
  unfolding clean_listing
  clean_stale_partials = clean_listing io.read_dir
