-- ===== src/Package/Verify/Tests.antt =====
-- A package for macOS with the four files that every package has.
use julie_semantic_sidecar.Prelude.{
  Bool, false, ◌||◌, str_eq, ◌≢◌, ap, All, arith, String, true, ◌≡◌, refl, map, [], ◌∷◌, some,
  Result, ok,
}
use julie_semantic_sidecar.Sanitize.{is_empty as is_empty_text}
use julie_semantic_sidecar.Prelude.Str.{
  starts_with, ends_with, contains, contains_code, split, all_bytes, str_lt, to_ascii_lowercase,
}
use julie_semantic_sidecar.Package.Profile.{
  PackageFileRole, executable, license, third_party_licenses, readme, portable, metal, PackageFile,
  PackageManifest, validate_relative_path, validate_shape, is_model_weight, classify,
}
use julie_semantic_sidecar.Package.Profile.Metadata.{IsName}
use julie_semantic_sidecar.Package.Verify.{DirEntry, Disk, model_policy, verify}
use julie_semantic_sidecar.Package.Verify.Complete.{verify-ok}
use julie_semantic_sidecar.Package.Verify.Laws.{IsVerified, IsVerifiedIf, verify-IsVerifiedIf}

abbrev file : String → PackageFileRole → PackageFile
file path role = record { path = path; sha256 = "00ff"; size = 7; role = role }

abbrev manifest : PackageManifest
manifest = record {
  schema_version = 2;
  sidecar_version = "0.3.0";
  profile = record {
    rust_target = "aarch64-apple-darwin";
    tier = portable;
    advertised_backend = metal;
    native_build_identity = "llama-cpp-2=0.1.151";
  };
  model_policy = record {
    ids = "bge-small-en-v1.5-f32" ∷ "qwen3-0.6b-f16" ∷ [];
    default_id = "bge-small-en-v1.5-f32";
  };
  files =
      file "LICENSE" license
      ∷ file "README.md" readme
      ∷ file "THIRD_PARTY-LICENSES.html" third_party_licenses
      ∷ file "julie-semantic-sidecar" executable
      ∷ [];
}

abbrev entry : String → Result DirEntry String
entry name = ok (record { path = name; file_name = some name; is_file = ok true })

-- The directory lists its files in another order.
abbrev disk : Disk
disk = record {
  Bytes = PackageManifest;
  root = "package";
  manifest_raw = ok manifest;
  from_slice = λ raw. ok raw;
  read_dir = ok (
      map entry (
        "julie-semantic-sidecar" ∷ "package-manifest.json" ∷ "README.md" ∷ "LICENSE"
        ∷ "THIRD_PARTY-LICENSES.html" ∷ []));
  metadata_len = λ path. ok 7;
  file_sha256 = λ path. ok "00ff";
}

accepted : verify disk "0.3.0" ≡ ok manifest
unfolding verify model_policy validate_relative_path validate_shape is_empty_text starts_with
    ends_with contains split all_bytes str_lt to_ascii_lowercase is_model_weight classify
accepted = refl

verify-IsVerifiedIf_example : IsVerifiedIf disk "0.3.0" (verify disk "0.3.0")
verify-IsVerifiedIf_example = verify-IsVerifiedIf disk "0.3.0"

abbrev is_reserved : String → Bool
is_reserved s = is_empty_text s || str_eq s "." || str_eq s ".."

-- A name that is not reserved is no name that is.
unlike : (s t : String) → is_reserved t ≡ true → is_reserved s ≡ false → s ≢ t
unlike s t h k e = let same = ap is_reserved e in absurd (ground arith)

name :
    (s : String)
    → is_reserved s ≡ false
    → (contains_code 47 s || contains_code 92 s) ≡ false
    → IsName s
unfolding is_empty_text
name s h k =
    (unlike s "" refl h, unlike s "." refl h, unlike s ".." refl h, ground arith, ground arith)

named : All (λ (f : PackageFile). IsName f.path) manifest.files
unfolding is_empty_text
named = (
  name "LICENSE" refl refl,
  (
    name "README.md" refl refl,
    (name "THIRD_PARTY-LICENSES.html" refl refl, (name "julie-semantic-sidecar" refl refl, tt)),
  ),
)

stands : IsVerified disk "0.3.0" manifest
unfolding verify model_policy validate_relative_path validate_shape is_empty_text starts_with
    ends_with contains split all_bytes str_lt to_ascii_lowercase is_model_weight classify
stands = verify-IsVerifiedIf disk "0.3.0"

verify-ok_example : verify disk "0.3.0" ≡ ok manifest
verify-ok_example = verify-ok disk "0.3.0" manifest named stands
