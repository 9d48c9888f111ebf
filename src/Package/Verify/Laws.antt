-- ===== src/Package/Verify/Laws.antt =====
-- What a package is that `verify` accepts.
use text.Mathlib.TextEquality.{eq_iff}
use julie_semantic_sidecar.Prelude.{
  any, ◌>>=◌, ◌>>◌, String, str_eq, true, false, ◌==◌, Bool-cases, map, ◌≡◌, ap, ◌∙◌, subst, inl,
  inr, List, [], ◌∷◌, Result, ok, err, ◌>>=◌, ◌>>◌, Result-cases, All, arith,
}
use julie_semantic_sidecar.Package.Profile.{
  role_eq, PackageProfile, PackageFile, PackageManifest, is_model_weight, classify, validate_shape,
  validate_relative_path, validate_manifest_metadata,
}
use julie_semantic_sidecar.Package.Profile.Shaped.{IsShaped, validate_shape-IsShaped}
use julie_semantic_sidecar.Package.Profile.Metadata.{
  HasMetadata, validate_manifest_metadata-HasMetadata, IsRelative,
}
use julie_semantic_sidecar.Package.Verify.Listed.{Lists, payload-Lists}
use julie_semantic_sidecar.Package.Verify.{
  payload, DirEntry, Disk, model_policy, relative_names, is_in, check_names, check_paths,
  payload_files, describe_file, compare_file, check_files, read_manifest, verify,
}
use julie_semantic_sidecar.Package.Verify.Names.{
  role_eq_sound, check_names_lem, served, model_policy_lem, check_paths-IsRelative,
}

module _ (disk : Disk) (version : String) where
  -- A file on disk that is as its line in the manifest says.
  pub record IsMatching (profile : PackageProfile) (f : PackageFile) : Type 0 where
    pub no_weight : is_model_weight f.path ≡ false
    pub role : classify f.path profile ≡ ok f.role
    pub size : disk.metadata_len f.path ≡ ok f.size
    pub sha256 : disk.file_sha256 f.path ≡ ok f.sha256

  compare_file_lem :
      (o d : PackageFile)
      → compare_file disk version o d ≡ ok tt
      → (o.role ≡ d.role) × (o.size ≡ d.size) × (o.sha256 ≡ d.sha256)
  unfolding compare_file
  compare_file_lem o d h = elim (Bool-cases (role_eq o.role d.role)) [
    | inr differ ↦ absurd (ground arith)
    | inl same ↦ elim (Bool-cases (o.size == d.size)) [
      | inr differ ↦ absurd (ground arith)
      | inl as_long ↦ elim (Bool-cases (str_eq o.sha256 d.sha256)) [
        | inr differ ↦ absurd (ground arith)
        | inl as_hashed ↦
            (role_eq_sound o.role d.role same, ground arith, (eq_iff o.sha256 d.sha256).0 as_hashed)
      ]
    ]
  ]

  -- What is described is what the disk says of the path.
  abbrev Described : String → PackageProfile → Result PackageFile String → Type 0
  Described path profile (err message) = Unit
  Described path profile (ok o) =
      (is_model_weight path ≡ false)
      × (classify path profile ≡ ok o.role)
      × (disk.metadata_len path ≡ ok o.size)
      × (disk.file_sha256 path ≡ ok o.sha256)

  describe_file-Described :
      (path : String) (profile : PackageProfile)
      → Described path profile (describe_file disk version path profile)
  unfolding describe_file
  describe_file-Described path profile = elim (Result-cases (validate_relative_path path)) [
    | inr (x, bad) ↦ rw (bad, describe_file) tt
    | inl (valid, a) ↦ elim (Bool-cases (is_model_weight path)) [
      | inl heavy ↦ rw (a, heavy, describe_file) tt
      | inr light ↦ elim (Result-cases (classify path profile)) [
        | inr (x, bad) ↦ rw (a, light, bad, describe_file) tt
        | inl (role, b) ↦ elim (Result-cases (disk.metadata_len path)) [
          | inr (x, bad) ↦ rw (a, light, b, bad, describe_file) tt
          | inl (size, c) ↦ elim (Result-cases (disk.file_sha256 path)) [
            | inr (x, bad) ↦ rw (a, light, b, c, bad, describe_file) tt
            | inl (sha256, d) ↦ rw (a, light, b, c, d, describe_file) (light, b, c, d)
          ]
        ]
      ]
    ]
  ]

  check_files_lem :
      (profile : PackageProfile) (files : List PackageFile)
      → check_files disk version profile files ≡ ok tt
      → All (IsMatching profile) files
  unfolding check_files
  check_files_lem profile [] h = tt
  check_files_lem profile (f ∷ rest) h =
      let described = describe_file-Described f.path profile in
      elim (Result-cases (describe_file disk version f.path profile)) [
        | inr (x, bad) ↦ absurd (ground arith)
        | inl (o, e) ↦ elim (Result-cases (compare_file disk version o f)) [
          | inr (x, bad) ↦ absurd (ground arith)
          | inl (same, g) ↦
              let (light, role, size, sha256) = subst (Described f.path profile) e described in
              let (r, z, d) = compare_file_lem o f g in
              (
                record {
                  no_weight = light;
                  role = role ∙ ap ok r;
                  size = size ∙ ap ok z;
                  sha256 = sha256 ∙ ap ok d;
                },
                check_files_lem profile rest (ground arith),
              )
        ]
      ]

  read_manifest_lem :
      (m : PackageManifest)
      → read_manifest disk version ≡ ok m
      → (raw : disk.Bytes) × (disk.manifest_raw ≡ ok raw) × (disk.from_slice raw ≡ ok m)
  unfolding read_manifest
  read_manifest_lem m h = elim (Result-cases disk.manifest_raw) [
    | inr (reason, bad) ↦ let k = rw (bad) at h in absurd (ground arith)
    | inl (raw, a) ↦ elim (Result-cases (disk.from_slice raw)) [
      | inr (reason, bad) ↦ let k = rw (a, bad) at h in absurd (ground arith)
      | inl (other, b) ↦
          let same : ◌≡◌ {A = Result PackageManifest String} (ok other) (ok m) = rw (a, b) at h in
          (raw, a, b ∙ same)
    ]
  ]

  payload_files_lem :
      (found : List DirEntry)
      → payload_files disk version ≡ ok found
      → (listing : List (Result DirEntry String)) × (disk.read_dir ≡ ok listing)
        × (payload listing ≡ ok found)
  unfolding payload_files
  payload_files_lem found h = elim (Result-cases disk.read_dir) [
    | inr (reason, bad) ↦ let k = rw (bad) at h in absurd (ground arith)
    | inl (listing, a) ↦ (listing, a, rw (a) at h)
  ]

  -- What an accepted manifest is, and what the disk has.
  pub data IsVerified (m : PackageManifest) : Type 0 where
    verified :
        (raw : disk.Bytes) (listing : List (Result DirEntry String)) (actual : List String)
        → disk.manifest_raw ≡ ok raw
        → disk.from_slice raw ≡ ok m
        → All (λ (f : PackageFile). IsRelative f.path) m.files
        → HasMetadata version served m
        → IsShaped m
        → disk.read_dir ≡ ok listing
        → Lists listing actual
        → All
            (λ path. any (λ s. str_eq s path) (map (λ (f : PackageFile). f.path) m.files) ≡ true)
            actual
        → All
            (λ path. any (λ s. str_eq s path) actual ≡ true)
            (map (λ (f : PackageFile). f.path) m.files)
        → All (IsMatching m.profile) m.files
        → IsVerified m

  abbrev pub IsVerifiedIf : Result PackageManifest String → Type 0
  IsVerifiedIf (ok m) = IsVerified m
  IsVerifiedIf (err message) = Unit

  as_verified :
      (m : PackageManifest) (found : List DirEntry) (actual : List String)
      → read_manifest disk version ≡ ok m
      → check_paths m.files ≡ ok tt
      → validate_manifest_metadata version model_policy m ≡ ok tt
      → validate_shape m ≡ ok tt
      → payload_files disk version ≡ ok found
      → relative_names found ≡ ok actual
      → All (λ path. is_in (map (λ (f : PackageFile). f.path) m.files) path ≡ true) actual
      → All (λ path. is_in actual path ≡ true) (map (λ (f : PackageFile). f.path) m.files)
      → All (IsMatching m.profile) m.files
      → IsVerified m
  as_verified m found actual a b c d e f declared present matching =
      let (raw, there, parsed) = read_manifest_lem m a in
      let (listing, opened, walked) = payload_files_lem found e in
      let metadata =
        subst (λ policy. HasMetadata version policy m) model_policy_lem
          (validate_manifest_metadata-HasMetadata version model_policy m c) in
      verified raw listing actual there parsed (check_paths-IsRelative m.files b) metadata
        (validate_shape-IsShaped m d) opened (payload-Lists listing found actual walked f) declared
        present matching

  -- A manifest that `verify` accepts is the one on disk. It has the schema and the version of the
  -- program, its two models with their default, a backend, tier and target that go together, and an
  -- identity of the build without a path. Its paths are relative and in order, none twice. It has one
  -- executable, license, list of third-party licenses and readme, and for Vulkan and CUDA the core
  -- runtime, a CPU backend and one accelerator, for Metal none of them. The directory could be listed
  -- and has regular files only; these are, but for the manifest, exactly its paths, each with the role
  -- that `classify` gives to its name, the size and the digest that the manifest says, and none is a
  -- model weight.
  pub verify-IsVerifiedIf : IsVerifiedIf (verify disk version)
  unfolding verify
  verify-IsVerifiedIf = elim (Result-cases (read_manifest disk version)) [
    | inr (x, bad) ↦ rw (bad, verify) tt
    | inl (m, a) ↦ elim (Result-cases (check_paths m.files)) [
      | inr (x, bad) ↦ rw (a, verify, bad) tt
      | inl (valid, b) ↦ elim (Result-cases (validate_manifest_metadata version model_policy m)) [
        | inr (x, bad) ↦ rw (a, verify, b, bad) tt
        | inl (known, c) ↦ elim (Result-cases (validate_shape m)) [
          | inr (x, bad) ↦ rw (a, verify, b, c, bad) tt
          | inl (shaped, d) ↦ rw (a, verify, b, c, d) (listed m a b c d)
        ]
      ]
    ]
  ]
    where
      listed :
          (m : PackageManifest)
          → read_manifest disk version ≡ ok m
          → check_paths m.files ≡ ok tt
          → validate_manifest_metadata version model_policy m ≡ ok tt
          → validate_shape m ≡ ok tt
          → IsVerifiedIf (do
            found ← payload_files disk version
            actual ← relative_names found
            check_names actual (map (λ (f : PackageFile). f.path) m.files)
            check_files disk version m.profile m.files
            ok m)
      listed m a b c d = elim (Result-cases (payload_files disk version)) [
        | inr (x, bad) ↦ rw (bad) tt
        | inl (found, e) ↦ elim (Result-cases (relative_names found)) [
          | inr (x, bad) ↦ rw (e, bad) tt
          | inl (actual, f) ↦
              elim (Result-cases (check_names actual (map (λ (f : PackageFile). f.path) m.files))) [
                | inr (x, bad) ↦ rw (e, f, bad) tt
                | inl (same, g) ↦ elim (Result-cases (check_files disk version m.profile m.files)) [
                  | inr (x, bad) ↦ rw (e, f, g, bad) tt
                  | inl (fine, h) ↦
                      let (declared, present) =
                        check_names_lem actual (map (λ (f : PackageFile). f.path) m.files) g in
                      rw (e, f, g, h)
                        (as_verified m found actual a b c d e f declared present
                          (check_files_lem m.profile m.files h))
                ]
              ]
        ]
      ]
