-- ===== src/Backend/Modules/Laws.antt =====
-- What the modules beside the executable are, and which of them are called and loaded.
use julie_semantic_sidecar.Prelude.{
  str_eq, not, if◌then◌else◌, concat, ◌≤◌, String, Bool, true, false, ◌&&◌, ◌≡◌, List, [], ◌∷◌,
  find, keep, Option, none, Result, ok, err, All,
}
use julie_semantic_sidecar.Prelude.Calls.{Calls}
use julie_semantic_sidecar.Prelude.Str.{starts_with}
use julie_semantic_sidecar.Backend.Discovery.{DeclaredBackends}
use julie_semantic_sidecar.Backend.Modules.{
  ModuleLoadReport, Directory, ModuleFile, ℤ, load_modules_from_executable_with,
  packaged_module_paths_for_scope,
}
use julie_semantic_sidecar.Backend.Modules.Scores.{value, IsPicked}

-- The name of the module without a variant, and how those of the variants begin.
abbrev pub base_name : Bool → String
base_name true = "ggml-cpu.dll"
base_name false = "libggml-cpu.so"

abbrev pub variant_start : Bool → String
variant_start true = "ggml-cpu-"
variant_start false = "libggml-cpu-"

-- The module without a variant, the variants, and the others.
abbrev pub base_of : Bool → List ModuleFile → Option ModuleFile
base_of windows paths = find (λ (m : ModuleFile). str_eq m.name (base_name windows)) paths

abbrev pub variants_of : Bool → List ModuleFile → List ModuleFile
variants_of windows paths =
    keep (λ (m : ModuleFile). starts_with m.name (variant_start windows)) paths

abbrev pub accelerators_of : Bool → List ModuleFile → List ModuleFile
accelerators_of windows paths =
    keep
      (λ (m : ModuleFile).
        not (str_eq m.name (base_name windows)) && not (starts_with m.name (variant_start windows)))
      paths

-- What a report says of the modules that could not be loaded.
abbrev pub refusals : List (ModuleFile × Result (Unit {0}) String) → List String
refusals [] = []
refusals ((m, ok done) ∷ loads) = refusals loads
refusals ((m, err reason) ∷ loads) =
    concat (
      "llama.cpp could not load packaged accelerator backend module " ∷ m.path ∷ ": " ∷ reason ∷ [])
    ∷ refusals loads

module _ (windows : Bool) {L : Type 0} (score : ModuleFile → L → Result ℤ String × L)
    (load : ModuleFile → L → Result (Unit {0}) String × L) (declared : DeclaredBackends)
    (include_accelerators : Bool) where
  -- The paths that the program finds beside its executable.
  abbrev pub found_paths : Option Directory → Result (List ModuleFile) String
  found_paths parent =
      load_modules_from_executable_with parent (λ directory.
        packaged_module_paths_for_scope windows directory declared include_accelerators)

  -- How a load ends: nothing was called, or only the scorer was, or one CPU module was loaded before
  -- anything else.
  pub data IsLoaded (parent : Option Directory) (l : L) (r : Result ModuleLoadReport String × L)
      : Type 0 where
    unfound :
        (reason : String)
        → found_paths parent ≡ err reason
        → r ≡ (err reason, l)
        → IsLoaded parent l r
    unsupported :
        (reason : String) (paths : List ModuleFile) (answers : List (ModuleFile × Result ℤ String))
        (l₁ : L)
        → found_paths parent ≡ ok paths
        → Calls score (variants_of windows paths) l answers l₁
        → base_of windows paths ≡ none
        → All (λ (a : ModuleFile × Result ℤ String). value a.1 ≤ 0) answers
        → r ≡ (err reason, l₁)
        → IsLoaded parent l r
    -- The CPU module could not be loaded.
    rejected :
        (paths : List ModuleFile) (chosen : ModuleFile)
        (answers : List (ModuleFile × Result ℤ String)) (l₁ : L) (reason message : String)
        → found_paths parent ≡ ok paths
        → Calls score (variants_of windows paths) l answers l₁
        → IsPicked answers (base_of windows paths) chosen
        → (load chosen l₁).0 ≡ err reason
        → r ≡ (err message, (load chosen l₁).1)
        → IsLoaded parent l r
    loaded :
        (paths : List ModuleFile) (chosen : ModuleFile)
        (answers : List (ModuleFile × Result ℤ String)) (l₁ : L)
        (loads : List (ModuleFile × Result (Unit {0}) String)) (l₂ : L)
        → found_paths parent ≡ ok paths
        → Calls score (variants_of windows paths) l answers l₁
        → IsPicked answers (base_of windows paths) chosen
        → (load chosen l₁).0 ≡ ok tt
        → Calls load
            (if include_accelerators then accelerators_of windows paths else [])
            (load chosen l₁).1
            loads
            l₂
        → r ≡ (ok (record { accelerator_failures = refusals loads }), l₂)
        → IsLoaded parent l r
