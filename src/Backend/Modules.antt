-- ===== src/Backend/Modules.antt =====
-- The native modules beside the executable: which are packaged, and which of them are loaded. What the
-- native scorer and loader answer is a parameter, with their state `L`; `windows` is the target's
-- `cfg!`. A directory is what the program asks of it.
pub mod Scores
pub mod Laws
use julie_semantic_sidecar.Prelude.{
  ℕ, zero, suc, String, str_eq, concat, ltb, Bool, true, false, not, ◌&&◌, ◌||◌, if◌then◌else◌,
  List, [], ◌∷◌, ◌++◌, map, any, find, keep, is_empty, Option, none, some, Result, ok, err, ◌>>=◌,
}
use julie_semantic_sidecar.Prelude.Str.{starts_with, ends_with, contains_code, join, str_lt}
use julie_semantic_sidecar.Backend.Selection.{cpu, metal, vulkan, cuda}
use julie_semantic_sidecar.Backend.Discovery.{DeclaredBackends}

pub record ModuleLoadReport : Type 0 where
  pub accelerator_failures : List String

-- An entry of a directory: its path as text, and its name if that is UTF-8.
pub record DirEntry : Type 0 where
  pub path : String
  pub file_name : Option String
  pub is_file : Bool

pub record Directory : Type 0 where
  pub to_str : Option String
  pub is_dir : Bool
  -- An entry that cannot be read is `none`.
  pub read_dir : Result (List (Option DirEntry)) String

-- A file of the package; only a file with a name in UTF-8 becomes one.
pub record ModuleFile : Type 0 where
  pub path : String
  pub name : String

-- `i32`
pub data ℤ : Type 0 where
  pos negsuc : ℕ → ℤ

abbrev pub gtb : ℤ → ℤ → Bool
gtb (pos a) (pos b) = ltb b a
gtb (pos a) (negsuc b) = true
gtb (negsuc a) (pos b) = false
gtb (negsuc a) (negsuc b) = ltb a b

unfoldable pub load_modules_from_executable_with :
    {A : Type 0} → Option Directory → (Directory → Result A String) → Result A String
load_modules_from_executable_with none loader = err "executable has no parent directory"
load_modules_from_executable_with (some parent) loader = elim parent.to_str [
  | none ↦ err "executable parent path is not valid UTF-8"
  | some text ↦
      if contains_code 0 text
      then err "executable parent path contains a NUL byte"
      else if not parent.is_dir
      then err "executable parent directory is not readable"
      else loader parent
]

module _ (windows : Bool) where
  abbrev pub module_prefix : String
  module_prefix = if windows then "" else "lib"

  abbrev pub module_suffix : String
  module_suffix = if windows then ".dll" else ".so"

  abbrev pub module_file_name : String → String
  module_file_name backend = concat (module_prefix ∷ "ggml-" ∷ backend ∷ module_suffix ∷ [])

  abbrev declared_names : DeclaredBackends → Bool → List String
  declared_names declared false = []
  declared_names declared true =
      map (λ (p : String × Bool). module_file_name p.0)
        (keep (λ (p : String × Bool). p.1)
          ((metal, declared.metal) ∷ (vulkan, declared.vulkan) ∷ (cuda, declared.cuda) ∷ []))

  unfoldable pub is_packaged : DeclaredBackends → Bool → String → Bool
  is_packaged declared include_accelerators name =
      (starts_with name (concat (module_prefix ∷ "ggml-cpu" ∷ [])) && ends_with name module_suffix)
      || any (λ other. str_eq name other) (declared_names declared include_accelerators)

  abbrev module_of :
      String → Option String → Bool → DeclaredBackends → Bool → List ModuleFile → List ModuleFile
  module_of path none is_file declared include_accelerators rest = rest
  module_of path (some name) is_file declared include_accelerators rest =
      if is_file && is_packaged declared include_accelerators name
      then record { path = path; name = name } ∷ rest
      else rest

  unfoldable pub packaged : DeclaredBackends → Bool → List (Option DirEntry) → List ModuleFile
  packaged declared include_accelerators [] = []
  packaged declared include_accelerators (none ∷ entries) =
      packaged declared include_accelerators entries
  packaged declared include_accelerators (some e ∷ entries) =
      module_of e.path e.file_name e.is_file declared include_accelerators
        (packaged declared include_accelerators entries)

  -- Paths in one directory are in the order of their names.
  unfoldable pub insert : ModuleFile → List ModuleFile → List ModuleFile
  insert m [] = m ∷ []
  insert m (x ∷ xs) =
      let rest = insert m xs in if str_lt x.name m.name then x ∷ rest else m ∷ x ∷ xs

  unfoldable pub sort : List ModuleFile → List ModuleFile
  unfolding insert
  sort [] = []
  sort (m ∷ ms) = insert m (sort ms)

  unfoldable pub packaged_module_paths_for_scope :
      Directory → DeclaredBackends → Bool → Result (List ModuleFile) String
  unfolding packaged sort
  packaged_module_paths_for_scope directory declared include_accelerators =
      if not directory.is_dir
      then err "backend module directory is not readable"
      else elim directory.read_dir [
        | err reason ↦ err (concat ("cannot read backend module directory: " ∷ reason ∷ []))
        | ok entries ↦ ok (sort (packaged declared include_accelerators entries))
      ]

  unfoldable pub is_base : ModuleFile → Bool
  is_base m = str_eq m.name (module_file_name cpu)

  unfoldable pub is_variant : ModuleFile → Bool
  is_variant m = starts_with m.name (concat (module_prefix ∷ "ggml-cpu-" ∷ []))

  unfoldable pub is_accelerator : ModuleFile → Bool
  unfolding is_base is_variant
  is_accelerator m = not (is_base m) && not (is_variant m)

-- The variables of the scoring loop.
pub record Scoring : Type 0 where
  pub best : Option (ModuleFile × ℤ)
  pub scoring_failures : List String

abbrev pub beats : ℤ → Option (ModuleFile × ℤ) → Bool
beats score none = true
beats score (some (m, current)) = gtb score current

unfoldable pub record_score : ModuleFile → Result ℤ String → Scoring → Scoring
record_score m (ok score) s =
    if gtb score (pos 0) && beats score s.best then record s { best = some (m, score) } else s
record_score m (err reason) s = record s {
  scoring_failures = s.scoring_failures ++ concat (m.path ∷ ": " ∷ reason ∷ []) ∷ [];
}

unfoldable pub record_scores : List (ModuleFile × Result ℤ String) → Scoring → Scoring
unfolding record_score
record_scores [] s = s
record_scores (a ∷ rest) s = record_scores rest (record_score a.0 a.1 s)

unfoldable pub pick : Scoring → Option ModuleFile → Result ModuleFile String
pick s cpu_base = elim s.best [
  | some (m, score) ↦ ok m
  | none ↦ elim cpu_base [
    | some m ↦ ok m
    | none ↦
        if is_empty s.scoring_failures
        then err "no supported packaged CPU backend module found beside the executable"
        else err (
            concat
              ("cannot score a packaged CPU backend module: " ∷ join ", " s.scoring_failures ∷ []))
  ]
]

module _ (windows : Bool) {L : Type 0} (score_cpu_variant : ModuleFile → L → Result ℤ String × L)
    (load_module : ModuleFile → L → Result (Unit {0}) String × L) where
  unfoldable pub score_all : List ModuleFile → L → List (ModuleFile × Result ℤ String) × L
  score_all [] l = ([], l)
  score_all (m ∷ ms) l =
      let (answer, l₁) = score_cpu_variant m l in
      let (rest, l₂) = score_all ms l₁ in ((m, answer) ∷ rest, l₂)

  -- The loop over the accelerators' modules: a failure is noted, and the loop goes on.
  unfoldable pub load_accelerators : List ModuleFile → L → List String × L
  load_accelerators [] l = ([], l)
  load_accelerators (m ∷ ms) l =
      let (answer, l₁) = load_module m l in
      let (rest, l₂) = load_accelerators ms l₁ in
      elim answer [
        | ok done ↦ (rest, l₂)
        | err reason ↦ (
          concat (
                "llama.cpp could not load packaged accelerator backend module " ∷ m.path ∷ ": "
                ∷ reason ∷ [])
              ∷ rest,
          l₂,
        )
      ]

  unfoldable pub load_chosen :
      ModuleFile → List ModuleFile → Bool → L → Result ModuleLoadReport String × L
  unfolding load_accelerators is_accelerator
  load_chosen chosen paths include_accelerators l =
      let (answer, l₁) = load_module chosen l in
      elim answer [
        | err reason ↦ (
          err (
              concat (
                "llama.cpp could not load packaged CPU backend module " ∷ chosen.path ∷ ": "
                ∷ reason ∷ [])),
          l₁,
        )
        | ok done ↦
            let (failures, l₂) =
              load_accelerators
                (if include_accelerators then keep (is_accelerator windows) paths else []) l₁ in
            (ok (record { accelerator_failures = failures }), l₂)
      ]

  unfoldable pub load_paths : List ModuleFile → Bool → L → Result ModuleLoadReport String × L
  unfolding score_all record_scores pick load_chosen
  load_paths paths include_accelerators l =
      let (answers, l₁) = score_all (keep (is_variant windows) paths) l in
      let s = record_scores answers (record { best = none; scoring_failures = [] }) in
      elim (pick s (find (is_base windows) paths)) [
        | err reason ↦ (err reason, l₁)
        | ok chosen ↦ load_chosen chosen paths include_accelerators l₁
      ]

  unfoldable pub load_packaged_modules_with :
      Option Directory → DeclaredBackends → Bool → L → Result ModuleLoadReport String × L
  unfolding load_modules_from_executable_with packaged_module_paths_for_scope load_paths
  load_packaged_modules_with executable_parent declared include_accelerators l =
      elim (load_modules_from_executable_with executable_parent (λ directory.
        packaged_module_paths_for_scope windows directory declared include_accelerators)) [
          | err reason ↦ (err reason, l)
          | ok paths ↦ load_paths paths include_accelerators l
        ]

  unfoldable pub load_packaged_cpu_modules_from_executable_with :
      Option Directory → DeclaredBackends → L → Result (Unit {0}) String × L
  unfolding load_packaged_modules_with
  load_packaged_cpu_modules_from_executable_with executable_parent declared l =
      let (answer, l') = load_packaged_modules_with executable_parent declared false l in
      (answer >>= λ report. ok tt, l')

  -- A build without dynamic backends has no modules to load.
  unfoldable pub load_packaged_modules_from_executable :
      Option Directory → DeclaredBackends → L → Result ModuleLoadReport String × L
  unfolding load_packaged_modules_with
  load_packaged_modules_from_executable executable_parent declared l =
      if declared.dynamic_backends
      then load_packaged_modules_with executable_parent declared true l
      else (ok (record { accelerator_failures = [] }), l)

  unfoldable pub load_packaged_cpu_modules_from_executable :
      Option Directory → DeclaredBackends → L → Result (Unit {0}) String × L
  unfolding load_packaged_cpu_modules_from_executable_with
  load_packaged_cpu_modules_from_executable executable_parent declared l =
      if declared.dynamic_backends
      then load_packaged_cpu_modules_from_executable_with executable_parent declared l
      else (ok tt, l)
