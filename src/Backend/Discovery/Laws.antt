-- ===== src/Backend/Discovery/Laws.antt =====
-- What a discovery offers: the loops of `discover_candidates` against a description without them.
use julie_semantic_sidecar.Prelude.{
  String, true, false, not, Bool-cases, ◌≡◌, refl, sym, ap, ◌∙◌, if◌then◌else◌, List, [], ◌∷◌, ◌++◌,
  map, inl, inr, str_eq, keep, is_empty,
}
use mathlib.Core.List.{append_assoc, append-nil}
use julie_semantic_sidecar.Health.{BackendCapabilities, cpu_only}
use julie_semantic_sidecar.Backend.Selection.{metal, vulkan, cuda, BackendCandidate, set_capability}
use julie_semantic_sidecar.Backend.Discovery.{
  DeclaredBackends, supports, RuntimeDevice, is_on, candidate_of, Found, add_device, add_devices,
  add_backend, cpu_candidate, nothing_found, discover_candidates,
}

-- The candidates on one backend: its devices in their order, if the package declares it.
abbrev pub candidates_on : DeclaredBackends → List RuntimeDevice → String → List BackendCandidate
candidates_on declared devices backend =
    if supports declared backend
    then map (candidate_of backend) (keep (is_on backend) devices)
    else []

add_devices-candidates :
    (backend : String) (devices : List RuntimeDevice) (s : Found)
    → (add_devices backend devices s).candidates
      ≡ s.candidates ++ map (candidate_of backend) devices
unfolding add_devices add_device
add_devices-candidates backend [] s = sym (append-nil s.candidates)
add_devices-candidates backend (d ∷ ds) s =
    add_devices-candidates backend ds (add_device backend d s)
    ∙ append_assoc s.candidates (candidate_of backend d ∷ []) (map (candidate_of backend) ds)

add_backend-candidates :
    (declared : DeclaredBackends) (devices : List RuntimeDevice) (backend : String) (s : Found)
    → (add_backend declared devices backend s).candidates
      ≡ s.candidates ++ candidates_on declared devices backend
unfolding add_backend
add_backend-candidates declared devices backend s = elim (Bool-cases (supports declared backend)) [
  | inl has ↦
      rw (has, add_backend) (add_devices-candidates backend (keep (is_on backend) devices) s)
  | inr lacks ↦ rw (lacks, add_backend) (sym (append-nil s.candidates))
]

set_capability-twice :
    (c : BackendCapabilities) (backend : String)
    → set_capability (set_capability c backend true) backend true ≡ set_capability c backend true
unfolding set_capability
set_capability-twice c backend = elim (Bool-cases (str_eq backend metal)) [
  | inl m ↦ rw (m)
  | inr no_m ↦ elim (Bool-cases (str_eq backend vulkan)) [
    | inl v ↦ rw (no_m, v)
    | inr no_v ↦ elim (Bool-cases (str_eq backend cuda)) [
      | inl c ↦ rw (no_m, no_v, c)
      | inr no_c ↦ rw (no_m, no_v, no_c)
    ]
  ]
]

-- The capability of a backend with devices is granted.
abbrev granted : String → List RuntimeDevice → BackendCapabilities → BackendCapabilities
granted backend [] c = c
granted backend (d ∷ ds) c = set_capability c backend true

add_devices-capabilities :
    (backend : String) (devices : List RuntimeDevice) (s : Found)
    → (add_devices backend devices s).capabilities ≡ granted backend devices s.capabilities
unfolding add_devices add_device
add_devices-capabilities backend [] s = refl
add_devices-capabilities backend (d ∷ []) s = refl
add_devices-capabilities backend (d ∷ e ∷ ds) s =
    add_devices-capabilities backend (e ∷ ds) (add_device backend d s)
    ∙ set_capability-twice s.capabilities backend

abbrev pub offered : DeclaredBackends → List RuntimeDevice → String → List RuntimeDevice
offered declared devices backend =
    if supports declared backend then keep (is_on backend) devices else []

add_backend-capabilities :
    (declared : DeclaredBackends) (devices : List RuntimeDevice) (backend : String) (s : Found)
    → (add_backend declared devices backend s).capabilities
      ≡ granted backend (offered declared devices backend) s.capabilities
unfolding add_backend
add_backend-capabilities declared devices backend s =
    elim (Bool-cases (supports declared backend)) [
      | inl has ↦
          rw (has, add_backend) (add_devices-capabilities backend (keep (is_on backend) devices) s)
      | inr lacks ↦ rw (lacks, add_backend) refl
    ]

three_granted :
    (ms vs cs : List RuntimeDevice)
    → granted cuda cs (granted vulkan vs (granted metal ms cpu_only)) ≡ record {
      cpu = true;
      cuda = not (is_empty cs);
      directml = false;
      mps = false;
      metal = not (is_empty ms);
      vulkan = not (is_empty vs);
    }
unfolding set_capability
three_granted [] [] [] = refl
three_granted [] [] (c ∷ cs) = refl
three_granted [] (v ∷ vs) [] = refl
three_granted [] (v ∷ vs) (c ∷ cs) = refl
three_granted (m ∷ ms) [] [] = refl
three_granted (m ∷ ms) [] (c ∷ cs) = refl
three_granted (m ∷ ms) (v ∷ vs) [] = refl
three_granted (m ∷ ms) (v ∷ vs) (c ∷ cs) = refl

-- Whatever is declared and listed: the candidates are the CPU and then, for Metal, Vulkan and CUDA in
-- this order, one for each listed device of that backend if the package declares it, in the order of
-- the list and with the device's index; and the capabilities are the CPU and exactly those of the
-- three that have a candidate.
pub discover_candidates_lem :
    (declared : DeclaredBackends) (devices : List RuntimeDevice)
    → let d = discover_candidates declared devices in
      let has = λ (backend : String). not (is_empty (offered declared devices backend)) in
      (d.candidates
        ≡ cpu_candidate
          ∷ (candidates_on declared devices metal
              ++ (candidates_on declared devices vulkan ++ candidates_on declared devices cuda)))
      × (d.capabilities ≡ record {
        cpu = true;
        cuda = has cuda;
        directml = false;
        mps = false;
        metal = has metal;
        vulkan = has vulkan;
      })
unfolding discover_candidates
discover_candidates_lem declared devices =
    let s₁ = add_backend declared devices metal nothing_found in
    let s₂ = add_backend declared devices vulkan s₁ in
    let on = candidates_on declared devices in
    let of = offered declared devices in
    (
      add_backend-candidates declared devices cuda s₂
          ∙ ap (λ cs. cs ++ on cuda) (add_backend-candidates declared devices vulkan s₁)
          ∙ ap (λ cs. (cs ++ on vulkan) ++ on cuda)
              (add_backend-candidates declared devices metal nothing_found)
          ∙ append_assoc (cpu_candidate ∷ on metal) (on vulkan) (on cuda),
      add_backend-capabilities declared devices cuda s₂
          ∙ ap (granted cuda (of cuda)) (add_backend-capabilities declared devices vulkan s₁)
          ∙ ap (λ c. granted cuda (of cuda) (granted vulkan (of vulkan) c))
              (add_backend-capabilities declared devices metal nothing_found)
          ∙ three_granted (of metal) (of vulkan) (of cuda),
    )
