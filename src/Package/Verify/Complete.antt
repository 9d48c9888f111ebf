-- ===== src/Package/Verify/Complete.antt =====
-- `verify` refuses no package without a reason.
use text.Mathlib.TextEquality.{eq_iff}
use julie_semantic_sidecar.Prelude.{
  Result, map, sym, subst, String, str_eq, true, keep, map, ◌≡◌, refl, List, [], ◌∷◌, none, ok, All,
  arith,
}
use julie_semantic_sidecar.Package.Profile.{
  PackageProfile, PackageFile, PackageManifest, validate_relative_path,
}
use julie_semantic_sidecar.Package.Profile.Shaped.{IsShaped-validate_shape}
use julie_semantic_sidecar.Package.Profile.Metadata.{
  HasMetadata, HasMetadata-validate_manifest_metadata, IsName, IsName-validate_relative_path,
}
use julie_semantic_sidecar.Package.Verify.Listed.{Lists-payload}
use julie_semantic_sidecar.Package.Verify.{
  payload, read_manifest, model_policy, payload_files, DirEntry, Disk, is_in, missing_from,
  check_names, check_paths, describe_file, compare_file, check_files, verify,
}
use julie_semantic_sidecar.Package.Verify.Names.{model_policy_lem}
use julie_semantic_sidecar.Package.Verify.Laws.{IsMatching, IsVerified, verified}

missing-none :
    (others texts : List String)
    → All (λ s. is_in others s ≡ true) texts
    → missing_from others texts ≡ none
missing-none others [] h = refl
missing-none others (s ∷ ss) (here, there) = rw (here, keep) (missing-none others ss there)

check_names-ok :
    (actual declared : List String)
    → All (λ s. is_in declared s ≡ true) actual
    → All (λ s. is_in actual s ≡ true) declared
    → check_names actual declared ≡ ok tt
unfolding check_names
check_names-ok actual declared h k =
    rw (check_names, missing-none declared actual h, missing-none actual declared k) refl

check_paths-ok :
    (files : List PackageFile)
    → All (λ (f : PackageFile). IsName f.path) files
    → check_paths files ≡ ok tt
unfolding check_paths
check_paths-ok [] h = refl
check_paths-ok (f ∷ rest) (here, there) =
    rw (IsName-validate_relative_path f.path here) (check_paths-ok rest there)

module _ (disk : Disk) (version : String) where
  describe_file-ok :
      (profile : PackageProfile) (f : PackageFile)
      → validate_relative_path f.path ≡ ok tt
      → IsMatching disk version profile f
      → describe_file disk version f.path profile ≡ ok f
  unfolding describe_file
  describe_file-ok profile f valid h =
      rw (valid, h.no_weight, h.role, h.size, h.sha256, describe_file) refl

  compare_file_refl : (f : PackageFile) → compare_file disk version f f ≡ ok tt
  unfolding compare_file
  compare_file_refl f =
      let same : str_eq f.sha256 f.sha256 ≡ true = (eq_iff f.sha256 f.sha256).1 refl in ground arith

  check_files-ok :
      (profile : PackageProfile) (files : List PackageFile)
      → All (λ (f : PackageFile). IsName f.path) files
      → All (IsMatching disk version profile) files
      → check_files disk version profile files ≡ ok tt
  unfolding check_files
  check_files-ok profile [] named h = refl
  check_files-ok profile (f ∷ rest) (name, names) (here, there) =
      let valid = IsName-validate_relative_path f.path name in
      rw (describe_file-ok profile f valid here, compare_file_refl f)
        (check_files-ok profile rest names there)

  read_manifest-ok :
      (m : PackageManifest) (raw : disk.Bytes)
      → disk.manifest_raw ≡ ok raw
      → disk.from_slice raw ≡ ok m
      → read_manifest disk version ≡ ok m
  unfolding read_manifest
  read_manifest-ok m raw there parsed = rw (there, parsed) refl

  payload_files-ok :
      (listing : List (Result DirEntry String)) (found : List DirEntry)
      → disk.read_dir ≡ ok listing
      → payload listing ≡ ok found
      → payload_files disk version ≡ ok found
  unfolding payload_files
  payload_files-ok listing found opened walked = rw (opened, walked) refl

  -- `verify` accepts every manifest that is on disk with paths that are names in a directory, with the
  -- schema, version and models of the program, a backend, tier and target that go together, an identity
  -- of the build without a path, its paths in order, and the roles that it must have; where the
  -- directory has regular files only, which are, but for the manifest, exactly its paths, each with the
  -- role that `classify` gives to its name, the size and the digest that the manifest says, and none a
  -- model weight.
  pub verify-ok :
      (m : PackageManifest)
      → All (λ (f : PackageFile). IsName f.path) m.files
      → IsVerified disk version m
      → verify disk version ≡ ok m
  unfolding verify
  verify-ok m names
        (verified raw listing actual there parsed relative metadata shaped opened listed declared
          present matching) =
      let (found, walked, named) = Lists-payload listed in
      let a = read_manifest-ok m raw there parsed in
      let b = check_paths-ok m.files names in
      let c =
        HasMetadata-validate_manifest_metadata version model_policy m
          (subst (λ policy. HasMetadata version policy m) (sym model_policy_lem) metadata) in
      let d = IsShaped-validate_shape m shaped in
      let e = payload_files-ok listing found opened walked in
      let g = check_names-ok actual (map (λ (x : PackageFile). x.path) m.files) declared present in
      let k = check_files-ok m.profile m.files names matching in
      rw (a, b, c, d, e, named, g, k) refl
