-- ===== src/Package/Profile/Shaped.antt =====
-- The roles that a package has, against `validate_shape`.
use julie_semantic_sidecar.Prelude.{
  ℕ, ◌+◌, ◌<◌, ◌==◌, keep, length, Bool-cases, ◌≡◌, inl, inr, List, ok, arith,
}
use julie_semantic_sidecar.Package.Profile.{
  AdvertisedBackend, metal, vulkan, cuda, PackageFileRole, executable, core_runtime, cpu_backend,
  accelerator_backend, license, third_party_licenses, readme, role_eq, PackageFile, PackageManifest,
  count, require_one, require_some, plugins_shape, backend_shape, validate_shape,
}

-- How many files have a role.
abbrev pub number : PackageFileRole → List PackageFile → ℕ
number role files = length (keep (λ (f : PackageFile). role_eq f.role role) files)

-- What native modules go with an advertised backend.
abbrev pub HasPlugins : AdvertisedBackend → List PackageFile → Type 0
HasPlugins metal files =
    (number core_runtime files ≡ 0)
    × (number cpu_backend files ≡ 0)
    × (number accelerator_backend files ≡ 0)
HasPlugins vulkan files =
    (0 < number core_runtime files)
    × (0 < number cpu_backend files)
    × (number accelerator_backend files ≡ 1)
HasPlugins cuda files =
    (0 < number core_runtime files)
    × (0 < number cpu_backend files)
    × (number accelerator_backend files ≡ 1)

-- One executable, one license, one list of third-party licenses, one readme, and the modules.
abbrev pub IsShaped : PackageManifest → Type 0
IsShaped m =
    (number executable m.files ≡ 1)
    × (number license m.files ≡ 1)
    × (number third_party_licenses m.files ≡ 1)
    × (number readme m.files ≡ 1)
    × HasPlugins m.profile.advertised_backend m.files

plugins_shape-HasPlugins :
    (files : List PackageFile)
    → plugins_shape files ≡ ok tt
    → (0 < number core_runtime files)
      × (0 < number cpu_backend files)
      × (number accelerator_backend files ≡ 1)
unfolding require_some count
plugins_shape-HasPlugins files h = elim (Bool-cases (number core_runtime files == 0)) [
  | inl a ↦ absurd (ground arith)
  | inr a ↦ elim (Bool-cases (number cpu_backend files == 0)) [
    | inl b ↦ absurd (ground arith)
    | inr b ↦ elim (Bool-cases (number accelerator_backend files == 0)) [
      | inl c ↦ absurd (ground arith)
      | inr c ↦ elim (Bool-cases (number accelerator_backend files == 1)) [
        | inl d ↦ (ground arith, ground arith, ground arith)
        | inr d ↦ absurd (ground arith)
      ]
    ]
  ]
]

backend_shape-HasPlugins :
    (backend : AdvertisedBackend) (files : List PackageFile)
    → backend_shape backend files ≡ ok tt
    → HasPlugins backend files
unfolding count
backend_shape-HasPlugins metal files h =
    elim (Bool-cases (
      number core_runtime files + number cpu_backend files + number accelerator_backend files
      == 0)) [
        | inl none_at_all ↦ (ground arith, ground arith, ground arith)
        | inr some_plugin ↦ absurd (ground arith)
      ]
backend_shape-HasPlugins vulkan files h = plugins_shape-HasPlugins files h
backend_shape-HasPlugins cuda files h = plugins_shape-HasPlugins files h

HasPlugins-backend_shape :
    (backend : AdvertisedBackend) (files : List PackageFile)
    → HasPlugins backend files
    → backend_shape backend files ≡ ok tt
unfolding count require_some
HasPlugins-backend_shape metal files (a, b, c) = ground arith
HasPlugins-backend_shape vulkan files (a, b, c) = ground arith
HasPlugins-backend_shape cuda files (a, b, c) = ground arith

pub validate_shape-IsShaped : (m : PackageManifest) → validate_shape m ≡ ok tt → IsShaped m
unfolding validate_shape require_one count
validate_shape-IsShaped m h = elim (Bool-cases (number executable m.files == 1)) [
  | inr a ↦ absurd (ground arith)
  | inl a ↦ elim (Bool-cases (number license m.files == 1)) [
    | inr b ↦ absurd (ground arith)
    | inl b ↦ elim (Bool-cases (number third_party_licenses m.files == 1)) [
      | inr c ↦ absurd (ground arith)
      | inl c ↦ elim (Bool-cases (number readme m.files == 1)) [
        | inr d ↦ absurd (ground arith)
        | inl d ↦ (
          ground arith,
          ground arith,
          ground arith,
          ground arith,
          backend_shape-HasPlugins m.profile.advertised_backend m.files (ground arith),
        )
      ]
    ]
  ]
]

pub IsShaped-validate_shape : (m : PackageManifest) → IsShaped m → validate_shape m ≡ ok tt
unfolding validate_shape require_one count
IsShaped-validate_shape m (a, b, c, d, plugins) =
    let last = HasPlugins-backend_shape m.profile.advertised_backend m.files plugins in ground arith
