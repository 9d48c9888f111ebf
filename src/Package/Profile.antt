-- ===== src/Package/Profile.antt =====
-- The data of a package manifest, and the checks that look at it alone. Paths are those of Unix, and
-- the version of the program is an argument.
pub mod Shaped
pub mod Metadata
use julie_semantic_sidecar.Prelude.{
  ℕ, ◌+◌, String, str_eq, concat, Bool, true, false, not, ◌&&◌, ◌||◌, ◌==◌, leb, if◌then◌else◌, any,
  keep, length, List, [], ◌∷◌, Option, none, some, Result, ok, err, ◌>>◌,
}
use julie_semantic_sidecar.Prelude.Str.{
  starts_with, ends_with, contains, contains_code, split, to_ascii_lowercase, all_bytes, str_lt,
}
use julie_semantic_sidecar.Sanitize.{is_empty as is_empty_text}

pub data PackageTier : Type 0 where
  portable vendor : PackageTier

pub data AdvertisedBackend : Type 0 where
  metal vulkan cuda : AdvertisedBackend

-- `AdvertisedBackend::as_str`
abbrev backend_str : AdvertisedBackend → String
backend_str metal = "metal"
backend_str vulkan = "vulkan"
backend_str cuda = "cuda"

pub data PackageFileRole : Type 0 where
  executable core_runtime cpu_backend accelerator_backend license third_party_licenses readme :
      PackageFileRole

abbrev pub role_id : PackageFileRole → ℕ
role_id executable = 0
role_id core_runtime = 1
role_id cpu_backend = 2
role_id accelerator_backend = 3
role_id license = 4
role_id third_party_licenses = 5
role_id readme = 6

abbrev pub role_eq : PackageFileRole → PackageFileRole → Bool
role_eq a b = role_id a == role_id b

pub record PackageProfile : Type 0 where
  pub rust_target : String
  pub tier : PackageTier
  pub advertised_backend : AdvertisedBackend
  pub native_build_identity : String

pub record ModelPolicy : Type 0 where
  pub ids : List String
  pub default_id : String

pub record PackageFile : Type 0 where
  pub path : String
  pub sha256 : String
  pub size : ℕ
  pub role : PackageFileRole

-- Its four fields that describe a profile are one.
pub record PackageManifest : Type 0 where
  pub schema_version : ℕ
  pub sidecar_version : String
  pub profile : PackageProfile
  pub model_policy : ModelPolicy
  pub files : List PackageFile

abbrev pub is_one_of : List String → String → Bool
is_one_of texts s = any (λ t. str_eq t s) texts

-- Which target an advertised backend and a tier go with.
abbrev pub is_supported : AdvertisedBackend → PackageTier → String → Bool
is_supported metal portable target =
    is_one_of ("aarch64-apple-darwin" ∷ "x86_64-apple-darwin" ∷ []) target
is_supported vulkan portable target =
    is_one_of ("x86_64-unknown-linux-gnu" ∷ "x86_64-pc-windows-msvc" ∷ []) target
is_supported cuda vendor target =
    is_one_of ("x86_64-unknown-linux-gnu" ∷ "x86_64-pc-windows-msvc" ∷ []) target
is_supported _ _ target = false

abbrev pub is_target_byte : ℕ → Bool
is_target_byte n =
    (leb 48 n && leb n 57)
    || (leb 65 n && leb n 90)
    || (leb 97 n && leb n 122)
    || (n == 46 || n == 95 || n == 45)

unfoldable pub validate_profile : PackageProfile → Result (Unit {0}) String
validate_profile p =
    if is_empty_text p.rust_target || not (all_bytes is_target_byte p.rust_target)
    then err "invalid Rust target"
    else if is_empty_text p.native_build_identity
        || contains_code 47 p.native_build_identity
        || contains_code 92 p.native_build_identity
        || contains p.native_build_identity ".worktrees"
    then err "native build identity contains a development path"
    else if is_supported p.advertised_backend p.tier p.rust_target
    then ok tt
    else err "unsupported package profile"

unfoldable pub is_native_library : String → Bool
is_native_library name =
    let lowercase = to_ascii_lowercase name in
    ends_with lowercase ".dll" || contains lowercase ".so" || contains lowercase ".dylib"

unfoldable pub is_model_weight : String → Bool
is_model_weight name =
    any (λ extension. ends_with (to_ascii_lowercase name) extension)
      (".gguf" ∷ ".onnx" ∷ ".safetensors" ∷ ".pt" ∷ ".pth" ∷ [])

abbrev is_metal : AdvertisedBackend → Bool
is_metal metal = true
is_metal vulkan = false
is_metal cuda = false

-- The loop over the names of accelerators; `none` where none of them is in the name.
unfoldable pub classify_accelerator :
    List String → String → AdvertisedBackend → Option (Result PackageFileRole String)
classify_accelerator [] name advertised = none
classify_accelerator (backend ∷ backends) name advertised =
    let rest = classify_accelerator backends name advertised in
    if contains (to_ascii_lowercase name) (concat ("ggml-" ∷ backend ∷ []))
    then some (
        if str_eq backend (backend_str advertised) && not (is_metal advertised)
        then ok accelerator_backend
        else err (
            concat (
              "accelerator module "
              ∷ name
              ∷ " disagrees with advertised backend "
              ∷ backend_str advertised
              ∷ [])))
    else rest

abbrev classify_core :
    String → Option (Result PackageFileRole String) → Result PackageFileRole String
classify_core name (some answer) = answer
classify_core name none =
    let lowercase = to_ascii_lowercase name in
    if starts_with lowercase "libggml"
      || starts_with lowercase "libllama"
      || starts_with lowercase "ggml"
      || starts_with lowercase "llama"
    then ok core_runtime
    else err (concat ("unsupported native library " ∷ name ∷ []))

unfoldable pub classify : String → PackageProfile → Result PackageFileRole String
unfolding classify_accelerator is_native_library
classify name p =
    let executable_name =
      if contains p.rust_target "windows"
      then "julie-semantic-sidecar.exe"
      else "julie-semantic-sidecar" in
    if str_eq name executable_name
    then ok executable
    else if str_eq name "LICENSE"
    then ok license
    else if str_eq name "THIRD_PARTY-LICENSES.html"
    then ok third_party_licenses
    else if str_eq name "README.md"
    then ok readme
    else if not (is_native_library name)
    then err (concat ("unsupported package file " ∷ name ∷ []))
    else if contains (to_ascii_lowercase name) "ggml-cpu"
    then ok cpu_backend
    else classify_core name (
        classify_accelerator ("metal" ∷ "vulkan" ∷ "cuda" ∷ "hip" ∷ "sycl" ∷ []) name
          p.advertised_backend)

unfoldable pub count : PackageFileRole → List PackageFile → ℕ
count role files = length (keep (λ (f : PackageFile). role_eq f.role role) files)

-- The loops over the roles that a package has once, and over those that it has at least once.
unfoldable pub require_one :
    List (PackageFileRole × String) → List PackageFile → Result (Unit {0}) String
unfolding count
require_one [] files = ok tt
require_one ((role, name) ∷ rest) files =
    if not (count role files == 1)
    then err (concat ("missing required " ∷ name ∷ " role" ∷ []))
    else require_one rest files

unfoldable pub require_some :
    List (PackageFileRole × String) → List PackageFile → Result (Unit {0}) String
unfolding count
require_some [] files = ok tt
require_some ((role, name) ∷ rest) files =
    if count role files == 0
    then err (concat ("missing required " ∷ name ∷ " role" ∷ []))
    else require_some rest files

abbrev pub plugins_shape : List PackageFile → Result (Unit {0}) String
plugins_shape files =
    require_some
      ((core_runtime, "core runtime")
        ∷ (cpu_backend, "CPU backend")
        ∷ (accelerator_backend, "advertised accelerator")
        ∷ [])
      files
    >> (if not (count accelerator_backend files == 1)
        then err "package must contain exactly one advertised accelerator module"
        else ok tt)

abbrev pub backend_shape : AdvertisedBackend → List PackageFile → Result (Unit {0}) String
backend_shape metal files =
    if not
      (count core_runtime files + count cpu_backend files + count accelerator_backend files == 0)
    then err "built-in Metal package must not contain native plugin files"
    else ok tt
backend_shape vulkan files = plugins_shape files
backend_shape cuda files = plugins_shape files

unfoldable pub validate_shape : PackageManifest → Result (Unit {0}) String
unfolding require_one require_some
validate_shape manifest =
    require_one
      ((executable, "executable")
        ∷ (license, "license")
        ∷ (third_party_licenses, "third-party licenses")
        ∷ (readme, "readme")
        ∷ [])
      manifest.files
    >> backend_shape manifest.profile.advertised_backend manifest.files

abbrev pub first_part : List String → String
first_part [] = ""
first_part (s ∷ ss) = s

abbrev pub is_single : List String → Bool
is_single [] = false
is_single (s ∷ []) = not (str_eq s "..")
is_single (s ∷ t ∷ ss) = false

-- One component, which is neither the root nor `.` nor `..`. The message has the path without escapes.
unfoldable pub validate_relative_path : String → Result (Unit {0}) String
validate_relative_path path =
    let parts = split 47 path in
    if is_empty_text path
      || contains_code 92 path
      || starts_with path "/"
      || str_eq (first_part parts) "."
      || not (is_single (keep (λ s. not (is_empty_text s) && not (str_eq s ".")) parts))
    then err (concat ("invalid package path \"" ∷ path ∷ "\"" ∷ []))
    else ok tt

abbrev pub texts_eq : List String → List String → Bool
texts_eq [] [] = true
texts_eq (s ∷ ss) (t ∷ ts) = str_eq s t && texts_eq ss ts
texts_eq _ _ = false

-- The list is sorted and has no duplicates.
unfoldable pub is_ascending : List PackageFile → Bool
is_ascending [] = true
is_ascending (f ∷ []) = true
is_ascending (f ∷ g ∷ fs) = str_lt f.path g.path && is_ascending (g ∷ fs)

unfoldable pub validate_manifest_metadata :
    String → ModelPolicy → PackageManifest → Result (Unit {0}) String
unfolding validate_profile is_ascending
validate_manifest_metadata version policy manifest =
    if not (manifest.schema_version == 2)
    then err "unsupported package manifest schema"
    else if not (str_eq manifest.sidecar_version version)
    then err "package sidecar version mismatch"
    else validate_profile manifest.profile
      >> (if not (
            texts_eq manifest.model_policy.ids policy.ids
            && str_eq manifest.model_policy.default_id policy.default_id)
          then err "model policy mismatch"
          else if not (is_ascending manifest.files)
          then err "package file list must be sorted without duplicates"
          else ok tt)
