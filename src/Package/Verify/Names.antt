-- ===== src/Package/Verify/Names.antt =====
-- The names of a package, its roles and its models, against the checks on them.
use julie_semantic_sidecar.Prelude.{
  ℕ, String, Bool, true, false, not, ◌==◌, if◌then◌else◌, Bool-cases, Option-cases, keep, ◌≡◌, refl,
  sym, ap, ◌∙◌, inl, inr, List, [], ◌∷◌, none, ok, Result-cases, All, arith,
}
use julie_semantic_sidecar.Package.Profile.{
  PackageFileRole, executable, core_runtime, cpu_backend, accelerator_backend, license,
  third_party_licenses, readme, role_id, role_eq, PackageFile, validate_relative_path,
}
use julie_semantic_sidecar.Prelude.Str.{str_lt}
use julie_semantic_sidecar.Package.Profile.{ModelPolicy}
use julie_semantic_sidecar.Package.Profile.Metadata.{IsRelative, validate_relative_path-IsRelative}
use julie_semantic_sidecar.Package.Verify.{
  model_policy, least, is_in, missing_from, check_names, check_paths,
}

role_of : ℕ → PackageFileRole
role_of n =
    if n == 0
    then executable
    else if n == 1
    then core_runtime
    else if n == 2
    then cpu_backend
    else if n == 3
    then accelerator_backend
    else if n == 4
    then license
    else if n == 5
    then third_party_licenses
    else readme

role_of-id : (r : PackageFileRole) → role_of (role_id r) ≡ r
unfolding role_of
role_of-id executable = refl
role_of-id core_runtime = refl
role_of-id cpu_backend = refl
role_of-id accelerator_backend = refl
role_of-id license = refl
role_of-id third_party_licenses = refl
role_of-id readme = refl

pub role_eq_sound : (a b : PackageFileRole) → role_eq a b ≡ true → a ≡ b
role_eq_sound a b h =
    let same : role_id a ≡ role_id b = ground arith in
    sym (role_of-id a) ∙ ap role_of same ∙ role_of-id b

keep-none :
    (p : String → Bool) (ss : List String) → least (keep p ss) ≡ none → All (λ s. p s ≡ false) ss
keep-none p [] h = tt
keep-none p (s ∷ ss) h = elim (Bool-cases (p s)) [
  | inl passes ↦ let k = rw (passes, keep) at h in absurd (ground arith)
  | inr fails ↦ (fails, keep-none p ss (rw (fails, keep) at h))
]

missing_none :
    (others texts : List String)
    → missing_from others texts ≡ none
    → All (λ s. is_in others s ≡ true) texts
missing_none others texts h = affirm texts (keep-none (λ s. not (is_in others s)) texts h)
  where
    affirm :
        (ss : List String)
        → All (λ s. not (is_in others s) ≡ false) ss
        → All (λ s. is_in others s ≡ true) ss
    affirm [] all = tt
    affirm (s ∷ ss) (first, all) = (ground arith, affirm ss all)

pub check_names_lem :
    (actual declared : List String)
    → check_names actual declared ≡ ok tt
    → All (λ s. is_in declared s ≡ true) actual × All (λ s. is_in actual s ≡ true) declared
unfolding check_names
check_names_lem actual declared h = elim (Option-cases (missing_from declared actual)) [
  | inr (path, e) ↦ absurd (ground arith)
  | inl e ↦ elim (Option-cases (missing_from actual declared)) [
    | inr (path, f) ↦ absurd (ground arith)
    | inl f ↦ (missing_none declared actual e, missing_none actual declared f)
  ]
]

-- The models of the program.
abbrev pub served : ModelPolicy
served = record {
  ids = "bge-small-en-v1.5-f32" ∷ "qwen3-0.6b-f16" ∷ [];
  default_id = "bge-small-en-v1.5-f32";
}

pub model_policy_lem : model_policy ≡ served
unfolding model_policy str_lt
model_policy_lem = refl

pub check_paths-IsRelative :
    (files : List PackageFile)
    → check_paths files ≡ ok tt
    → All (λ (f : PackageFile). IsRelative f.path) files
unfolding check_paths
check_paths-IsRelative [] h = tt
check_paths-IsRelative (f ∷ rest) h = elim (Result-cases (validate_relative_path f.path)) [
  | inr (reason, bad) ↦ let k = rw (bad) at h in absurd (ground arith)
  | inl (fine, e) ↦
      (validate_relative_path-IsRelative f.path e, check_paths-IsRelative rest (rw (e) at h))
]
