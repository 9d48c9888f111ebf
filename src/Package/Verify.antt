-- ===== src/Package/Verify.antt =====
-- `verify` and `verify_patched`: a package on disk against its manifest. What the file system, the
-- digest and serde_json answer is the parameter `Disk`.
pub mod Listed
pub mod Names
pub mod Laws
pub mod Complete
pub mod Tests
use Prim.Native.String
use julie_semantic_sidecar.Prelude.{
  ℕ, suc, String, str_eq, concat, Bool, true, false, not, ◌&&◌, ◌||◌, ◌==◌, leb, if◌then◌else◌, any,
  find, keep, map, List, [], ◌∷◌, Option, none, some, Result, ok, err, ◌>>=◌, ◌>>◌, map_err, ok_or,
}
use julie_semantic_sidecar.Prelude.Str.{starts_with, strip_prefix, split, all_bytes, str_lt}
use julie_semantic_sidecar.Manifest.{ModelPin, pins, default_model_id}
use julie_semantic_sidecar.Prepare.Partials.{sort_paths}
use julie_semantic_sidecar.Package.Profile.{
  PackageFileRole, role_eq, PackageProfile, ModelPolicy, PackageFile, PackageManifest,
  is_model_weight, classify, validate_shape, validate_relative_path, validate_manifest_metadata,
}

-- An entry of the package's directory; its name is `none` where it is not UTF-8.
pub record DirEntry : Type 0 where
  pub path : String
  pub file_name : Option String
  pub is_file : Result Bool String

pub record Disk : Type 1 where
  pub Bytes : Type 0
  pub root : String
  pub manifest_raw : Result Bytes String
  pub from_slice : Bytes → Result PackageManifest String
  pub read_dir : Result (List (Result DirEntry String)) String
  pub metadata_len : String → Result ℕ String
  pub file_sha256 : String → Result String String

-- `model_policy`
unfoldable pub model_policy : ModelPolicy
unfolding sort_paths
model_policy = record {
  ids = sort_paths (map (λ (pin : ModelPin). pin.id) pins);
  default_id = default_model_id;
}

abbrev pub is_manifest_file : Option String → Bool
is_manifest_file none = false
is_manifest_file (some name) = str_eq name "package-manifest.json"

abbrev pub add_payload :
    DirEntry → Result Bool String → Result (List DirEntry) String → Result (List DirEntry) String
add_payload e (err reason) rest = err (concat ("cannot inspect package entry: " ∷ reason ∷ []))
add_payload e (ok false) rest =
    err (concat (e.path ∷ " must be a regular file in the flat package root" ∷ []))
add_payload e (ok true) rest = rest >>= λ es. ok (e ∷ es)

unfoldable pub payload : List (Result DirEntry String) → Result (List DirEntry) String
payload [] = ok []
payload (err reason ∷ entries) = err (concat ("cannot read package entry: " ∷ reason ∷ []))
payload (ok e ∷ entries) =
    let rest = payload entries in
    if is_manifest_file e.file_name then rest else add_payload e e.is_file rest

-- `relative_name` of each path.
unfoldable pub relative_names : List DirEntry → Result (List String) String
relative_names [] = ok []
relative_names (e ∷ es) = do
  name ← ok_or e.file_name "package path is not valid UTF-8"
  names ← relative_names es
  ok (name ∷ names)

abbrev smaller : String → Option String → String
smaller s none = s
smaller s (some t) = if str_lt t s then t else s

-- The first text of a set.
abbrev pub least : List String → Option String
least [] = none
least (s ∷ ss) = some (smaller s (least ss))

abbrev pub is_in : List String → String → Bool
is_in texts s = any (λ t. str_eq t s) texts

abbrev pub missing_from : List String → List String → Option String
missing_from others texts = least (keep (λ s. not (is_in others s)) texts)

-- The two differences of the sets of names.
unfoldable pub check_names : List String → List String → Result (Unit {0}) String
check_names actual declared = elim (missing_from declared actual) [
  | some path ↦ err (concat ("undeclared file " ∷ path ∷ []))
  | none ↦ elim (missing_from actual declared) [
    | some path ↦ err (concat ("declared file is missing: " ∷ path ∷ []))
    | none ↦ ok tt
  ]
]

unfoldable pub check_paths : List PackageFile → Result (Unit {0}) String
check_paths [] = ok tt
check_paths (f ∷ fs) = validate_relative_path f.path >> check_paths fs

-- The length of a text of one-byte characters; any other is refused by `is_digest`.
abbrev size_of : String → ℕ
size_of String.[] = 0
size_of (String.◌∷◌ c s) = suc (size_of s)

abbrev is_digest : String → Bool
is_digest digest = all_bytes (λ n. (leb 48 n && leb n 57) || (leb 97 n && leb n 102)) digest

module _ (disk : Disk) (version : String) where
  unfoldable pub payload_files : Result (List DirEntry) String
  unfolding payload
  payload_files =
      map_err (λ reason. concat ("cannot read package root: " ∷ reason ∷ [])) disk.read_dir
      >>= payload

  -- A path that gets here is a name of the directory, so it is its own relative name.
  unfoldable pub describe_file : String → PackageProfile → Result PackageFile String
  describe_file relative profile = do
    validate_relative_path relative
    (if is_model_weight relative
        then err (concat ("model weight is forbidden in packages: " ∷ relative ∷ []))
        else ok tt)
    role ← classify relative profile
    size ←
        map_err (λ reason. concat ("cannot inspect " ∷ relative ∷ ": " ∷ reason ∷ []))
          (disk.metadata_len relative)
    sha256 ← disk.file_sha256 relative
    ok (record { path = relative; sha256 = sha256; size = size; role = role })

  unfoldable pub compare_file : PackageFile → PackageFile → Result (Unit {0}) String
  compare_file observed declared =
      if not (role_eq observed.role declared.role)
      then err (concat ("role mismatch for " ∷ declared.path ∷ []))
      else if not (observed.size == declared.size)
      then err (concat ("size mismatch for " ∷ declared.path ∷ []))
      else if not (str_eq observed.sha256 declared.sha256)
      then err (concat ("checksum mismatch for " ∷ declared.path ∷ []))
      else ok tt

  unfoldable pub check_files : PackageProfile → List PackageFile → Result (Unit {0}) String
  unfolding describe_file compare_file
  check_files profile [] = ok tt
  check_files profile (declared ∷ rest) = do
    observed ← describe_file declared.path profile
    compare_file observed declared
    check_files profile rest

  unfoldable pub read_manifest : Result PackageManifest String
  read_manifest = do
    raw ←
        map_err
          (λ reason. concat ("cannot read " ∷ disk.root ∷ "/package-manifest.json: " ∷ reason ∷ []))
          disk.manifest_raw
    map_err (λ reason. concat ("invalid package manifest JSON: " ∷ reason ∷ []))
        (disk.from_slice raw)

  unfoldable pub verify : Result PackageManifest String
  unfolding read_manifest check_paths validate_manifest_metadata validate_shape payload_files
      relative_names check_names check_files
  verify = do
    manifest ← read_manifest
    check_paths manifest.files
    validate_manifest_metadata version model_policy manifest
    validate_shape manifest
    entries ← payload_files
    actual ← relative_names entries
    check_names actual (map (λ (f : PackageFile). f.path) manifest.files)
    check_files manifest.profile manifest.files
    ok manifest

  abbrev patch_identity : Option String → Result (Unit {0}) String
  patch_identity none = err "package native patch identity is missing"
  patch_identity (some identity) =
      elim (strip_prefix "native_patch=llama-cpp-sys-2-0.1.151:vulkan-repro-v4:" identity) [
        | none ↦ err "package native patch identity is invalid"
        | some digest ↦
            if not (size_of digest == 64) || not (is_digest digest)
            then err "package native patch identity is invalid"
            else ok tt
      ]

  unfoldable pub verify_patched : Result PackageManifest String
  unfolding verify
  verify_patched = do
    manifest ← verify
    patch_identity (
        find (λ value. starts_with value "native_patch=")
          (split 59 manifest.profile.native_build_identity))
    ok manifest
