-- ===== src/Package/Profile/Metadata.antt =====
-- The metadata of a manifest, and the names of its files, against the checks on them.
use text.Mathlib.TextEquality.{eq_iff}
use Prim.Native.Char.{code}
use julie_semantic_sidecar.Prelude.{
  String, str_eq, true, false, not, ◌&&◌, ◌||◌, ◌==◌, keep, Bool-cases, ◌≡◌, ◌≢◌, refl, ap, ◌∙◌,
  subst, inl, inr, List, [], ◌∷◌, ok, Result-cases, arith,
}
use julie_semantic_sidecar.Prelude.Str.{
  starts_with, strip_prefix, contains, contains_code, split, all_bytes, str_lt,
}
use julie_semantic_sidecar.Sanitize.{is_empty as is_empty_text}
use julie_semantic_sidecar.Package.Profile.{
  PackageTier, portable, vendor, AdvertisedBackend, metal, vulkan, cuda, PackageProfile,
  ModelPolicy, PackageFile, PackageManifest, is_one_of, is_supported, is_target_byte,
  validate_profile, texts_eq, is_ascending, validate_manifest_metadata, validate_relative_path,
}

-- The profiles that are built: Metal on macOS, Vulkan and, from the vendor, CUDA on Linux and Windows.
pub data IsBuilt : AdvertisedBackend → PackageTier → String → Type 0 where
  metal_arm : IsBuilt metal portable "aarch64-apple-darwin"
  metal_intel : IsBuilt metal portable "x86_64-apple-darwin"
  vulkan_linux : IsBuilt vulkan portable "x86_64-unknown-linux-gnu"
  vulkan_windows : IsBuilt vulkan portable "x86_64-pc-windows-msvc"
  cuda_linux : IsBuilt cuda vendor "x86_64-unknown-linux-gnu"
  cuda_windows : IsBuilt cuda vendor "x86_64-pc-windows-msvc"

-- The build identity is there and has no path in it.
abbrev pub IsIdentity : String → Type 0
IsIdentity identity =
    (identity ≢ "")
    × (contains_code 47 identity ≡ false)
    × (contains_code 92 identity ≡ false)
    × (contains identity ".worktrees" ≡ false)

-- The files come in the order of their paths, no path twice.
abbrev pub IsSorted : List PackageFile → Type 0
IsSorted [] = Unit
IsSorted (f ∷ []) = Unit
IsSorted (f ∷ g ∷ fs) = (str_lt f.path g.path ≡ true) × IsSorted (g ∷ fs)

abbrev pub HasMetadata : String → ModelPolicy → PackageManifest → Type 0
HasMetadata version policy m =
    (m.schema_version ≡ 2)
    × (m.sidecar_version ≡ version)
    × IsBuilt m.profile.advertised_backend m.profile.tier m.profile.rust_target
    × IsIdentity m.profile.native_build_identity
    × (m.model_policy.ids ≡ policy.ids)
    × (m.model_policy.default_id ≡ policy.default_id)
    × IsSorted m.files

str_eq_refl : (s : String) → str_eq s s ≡ true
str_eq_refl s = (eq_iff s s).1 refl

texts_eq_sound : (ss ts : List String) → texts_eq ss ts ≡ true → ss ≡ ts
texts_eq_sound [] [] h = refl
texts_eq_sound [] (t ∷ ts) h = absurd (ground arith)
texts_eq_sound (s ∷ ss) [] h = absurd (ground arith)
texts_eq_sound (s ∷ ss) (t ∷ ts) h =
    let same : s ≡ t = (eq_iff s t).0 (ground arith) in
    let rest : ss ≡ ts = texts_eq_sound ss ts (ground arith) in
    ap (λ x. x ∷ ss) same ∙ ap (λ xs. t ∷ xs) rest

texts_eq_refl : (ss : List String) → texts_eq ss ss ≡ true
texts_eq_refl [] = refl
texts_eq_refl (s ∷ ss) = let first = str_eq_refl s in let rest = texts_eq_refl ss in ground arith

is_ascending-IsSorted : (fs : List PackageFile) → is_ascending fs ≡ true → IsSorted fs
unfolding is_ascending
is_ascending-IsSorted [] h = tt
is_ascending-IsSorted (f ∷ []) h = tt
is_ascending-IsSorted (f ∷ g ∷ fs) h = (ground arith, is_ascending-IsSorted (g ∷ fs) (ground arith))

IsSorted-is_ascending : (fs : List PackageFile) → IsSorted fs → is_ascending fs ≡ true
unfolding is_ascending
IsSorted-is_ascending [] h = refl
IsSorted-is_ascending (f ∷ []) h = refl
IsSorted-is_ascending (f ∷ g ∷ fs) (here, there) =
    let rest = IsSorted-is_ascending (g ∷ fs) there in ground arith

one_of_two :
    (P : String → Type 0) (s t target : String)
    → P s
    → P t
    → is_one_of (s ∷ t ∷ []) target ≡ true
    → P target
one_of_two P s t target p q h = elim (Bool-cases (str_eq s target)) [
  | inl same ↦ subst P ((eq_iff s target).0 same) p
  | inr other ↦ subst P ((eq_iff t target).0 (ground arith)) q
]

is_supported-IsBuilt :
    (backend : AdvertisedBackend) (tier : PackageTier) (target : String)
    → is_supported backend tier target ≡ true
    → IsBuilt backend tier target
is_supported-IsBuilt metal portable target h =
    one_of_two (IsBuilt metal portable) _ _ target metal_arm metal_intel h
is_supported-IsBuilt vulkan portable target h =
    one_of_two (IsBuilt vulkan portable) _ _ target vulkan_linux vulkan_windows h
is_supported-IsBuilt cuda vendor target h =
    one_of_two (IsBuilt cuda vendor) _ _ target cuda_linux cuda_windows h
is_supported-IsBuilt metal vendor target h = absurd (ground arith)
is_supported-IsBuilt vulkan vendor target h = absurd (ground arith)
is_supported-IsBuilt cuda portable target h = absurd (ground arith)

-- A target that is built for is one that is valid and supported.
IsBuilt-is_supported :
    {backend : AdvertisedBackend} {tier : PackageTier} {target : String}
    → IsBuilt backend tier target
    → ((is_empty_text target || not (all_bytes is_target_byte target)) ≡ false)
      × (is_supported backend tier target ≡ true)
unfolding is_empty_text all_bytes
IsBuilt-is_supported metal_arm = (refl, refl)
IsBuilt-is_supported metal_intel = (refl, refl)
IsBuilt-is_supported vulkan_linux = (refl, refl)
IsBuilt-is_supported vulkan_windows = (refl, refl)
IsBuilt-is_supported cuda_linux = (refl, refl)
IsBuilt-is_supported cuda_windows = (refl, refl)

is_empty_lem : (s : String) → is_empty_text s ≡ false → s ≢ ""
unfolding is_empty_text
is_empty_lem s h e =
    let blank : is_empty_text s ≡ true = ap is_empty_text e in absurd (ground arith)

not_empty_lem : (s : String) → s ≢ "" → is_empty_text s ≡ false
unfolding is_empty_text
not_empty_lem String.[] h = absurd (h refl)
not_empty_lem (String.◌∷◌ c s) h = refl

validate_profile-IsBuilt :
    (p : PackageProfile)
    → validate_profile p ≡ ok tt
    → IsBuilt p.advertised_backend p.tier p.rust_target × IsIdentity p.native_build_identity
unfolding validate_profile
validate_profile-IsBuilt p h =
    elim (Bool-cases
      (is_empty_text p.rust_target || not (all_bytes is_target_byte p.rust_target))) [
        | inl bad ↦ absurd (ground arith)
        | inr target ↦
            elim (Bool-cases (
              is_empty_text p.native_build_identity
              || contains_code 47 p.native_build_identity
              || contains_code 92 p.native_build_identity
              || contains p.native_build_identity ".worktrees")) [
                | inl bad ↦ absurd (ground arith)
                | inr identity ↦
                    elim (Bool-cases (is_supported p.advertised_backend p.tier p.rust_target)) [
                      | inr bad ↦ absurd (ground arith)
                      | inl built ↦ (
                        is_supported-IsBuilt p.advertised_backend p.tier p.rust_target built,
                        (
                          is_empty_lem p.native_build_identity (ground arith),
                          ground arith,
                          ground arith,
                          ground arith,
                        ),
                      )
                    ]
              ]
      ]

IsBuilt-validate_profile :
    (p : PackageProfile)
    → IsBuilt p.advertised_backend p.tier p.rust_target
    → IsIdentity p.native_build_identity
    → validate_profile p ≡ ok tt
unfolding validate_profile
IsBuilt-validate_profile p built (full, slash, backslash, worktree) =
    let (target, supported) = IsBuilt-is_supported built in
    let full' = not_empty_lem p.native_build_identity full in ground arith

pub validate_manifest_metadata-HasMetadata :
    (version : String) (policy : ModelPolicy) (m : PackageManifest)
    → validate_manifest_metadata version policy m ≡ ok tt
    → HasMetadata version policy m
unfolding validate_manifest_metadata
validate_manifest_metadata-HasMetadata version policy m h =
    elim (Bool-cases (m.schema_version == 2)) [
      | inr a ↦ absurd (ground arith)
      | inl a ↦ elim (Bool-cases (str_eq m.sidecar_version version)) [
        | inr b ↦ absurd (ground arith)
        | inl b ↦ elim (Result-cases (validate_profile m.profile)) [
          | inr (reason, c) ↦ absurd (ground arith)
          | inl (valid, c) ↦
              elim (Bool-cases (
                texts_eq m.model_policy.ids policy.ids
                && str_eq m.model_policy.default_id policy.default_id)) [
                  | inr d ↦ absurd (ground arith)
                  | inl d ↦ elim (Bool-cases (is_ascending m.files)) [
                    | inr e ↦ absurd (ground arith)
                    | inl e ↦
                        let (built, identity) = validate_profile-IsBuilt m.profile c in
                        (
                          ground arith,
                          (eq_iff m.sidecar_version version).0 b,
                          built,
                          identity,
                          texts_eq_sound m.model_policy.ids policy.ids (ground arith),
                          (eq_iff m.model_policy.default_id policy.default_id).0 (ground arith),
                          is_ascending-IsSorted m.files e,
                        )
                  ]
                ]
        ]
      ]
    ]

pub HasMetadata-validate_manifest_metadata :
    (version : String) (policy : ModelPolicy) (m : PackageManifest)
    → HasMetadata version policy m
    → validate_manifest_metadata version policy m ≡ ok tt
unfolding validate_manifest_metadata
HasMetadata-validate_manifest_metadata version policy m
      (schema, same_version, built, identity, ids, default_id, sorted) =
    let profile = IsBuilt-validate_profile m.profile built identity in
    let a = (eq_iff m.sidecar_version version).1 same_version in
    let b : texts_eq m.model_policy.ids policy.ids ≡ true =
      subst (λ ss. texts_eq m.model_policy.ids ss ≡ true) ids (texts_eq_refl m.model_policy.ids) in
    let c = (eq_iff m.model_policy.default_id policy.default_id).1 default_id in
    let d = IsSorted-is_ascending m.files sorted in ground arith

-- What every path of a package is: not empty, without a backslash, and relative.
abbrev pub IsRelative : String → Type 0
IsRelative path = (path ≢ "") × (contains_code 92 path ≡ false) × (starts_with path "/" ≡ false)

-- A name in one directory: neither `.` nor `..`, without a slash or a backslash.
abbrev pub IsName : String → Type 0
IsName path =
    (path ≢ "")
    × (path ≢ ".")
    × (path ≢ "..")
    × (contains_code 47 path ≡ false)
    × (contains_code 92 path ≡ false)

pub validate_relative_path-IsRelative :
    (path : String) → validate_relative_path path ≡ ok tt → IsRelative path
unfolding validate_relative_path
validate_relative_path-IsRelative path h = elim (Bool-cases (is_empty_text path)) [
  | inl a ↦ absurd (ground arith)
  | inr a ↦ elim (Bool-cases (contains_code 92 path)) [
    | inl b ↦ absurd (ground arith)
    | inr b ↦ elim (Bool-cases (starts_with path "/")) [
      | inl c ↦ absurd (ground arith)
      | inr c ↦ (is_empty_lem path a, b, c)
    ]
  ]
]

split_lem : (path : String) → contains_code 47 path ≡ false → split 47 path ≡ path ∷ []
unfolding split
split_lem String.[] h = refl
split_lem (String.◌∷◌ c s) h =
    let rest = split_lem s (ground arith) in
    let other : (code c == 47) ≡ false = ground arith in rw (other, split, rest) refl

unrooted : (path : String) → contains_code 47 path ≡ false → starts_with path "/" ≡ false
unfolding starts_with strip_prefix
unrooted String.[] h = refl
unrooted (String.◌∷◌ c s) h = let other : (code c == 47) ≡ false = ground arith in ground arith

pub IsName-validate_relative_path :
    (path : String) → IsName path → validate_relative_path path ≡ ok tt
unfolding validate_relative_path
IsName-validate_relative_path path (full, here, up, slash, backslash) =
    let a = not_empty_lem path full in
    let b = unrooted path slash in
    let c = split_lem path slash in
    let d : str_eq path "." ≡ false = differ path "." here in
    let e : str_eq path ".." ≡ false = differ path ".." up in
    rw (a, backslash, b, c, d, a, keep, e) refl
  where
    differ : (s t : String) → s ≢ t → str_eq s t ≡ false
    differ s t h = elim (Bool-cases (str_eq s t)) [
      | inl same ↦ absurd (h ((eq_iff s t).0 same))
      | inr other ↦ other
    ]
