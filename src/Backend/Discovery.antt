-- ===== src/Backend/Discovery.antt =====
-- `discover_candidates`: the devices that llama.cpp lists, as far as the package declares their
-- backends. The features of the build are an argument.
pub mod Laws
use julie_semantic_sidecar.Prelude.{
  ℕ, String, str_eq, concat, decimal, Bool, true, false, not, ◌&&◌, ◌||◌, if◌then◌else◌, List, [],
  ◌∷◌, ◌++◌, map, keep, is_empty, Option, none, some,
}
use julie_semantic_sidecar.Prelude.Str.{eq_ignore_ascii_case, join}
use julie_semantic_sidecar.Sanitize.{trim, is_empty as is_empty_text}
use julie_semantic_sidecar.Health.{BackendCapabilities, cpu_only}
use julie_semantic_sidecar.Backend.Selection.{
  cpu, metal, vulkan, cuda, BackendCandidate, set_capability,
}

pub record DeclaredBackends : Type 0 where
  pub metal : Bool
  pub vulkan : Bool
  pub cuda : Bool
  pub rocm : Bool
  pub dynamic_backends : Bool

abbrev bool_str : Bool → String
bool_str true = "true"
bool_str false = "false"

-- `DeclaredBackends::identity`
unfoldable pub identity : DeclaredBackends → String
identity d = concat (
    "metal="
    ∷ bool_str d.metal
    ∷ ";vulkan="
    ∷ bool_str d.vulkan
    ∷ ";cuda="
    ∷ bool_str d.cuda
    ∷ ";rocm="
    ∷ bool_str d.rocm
    ∷ ";dynamic="
    ∷ bool_str d.dynamic_backends
    ∷ [])

-- `DeclaredBackends::supports`
unfoldable pub supports : DeclaredBackends → String → Bool
supports d backend =
    if str_eq backend metal
    then d.metal
    else if str_eq backend vulkan
    then d.vulkan
    else if str_eq backend cuda
    then d.cuda
    else str_eq backend cpu

-- `DeclaredBackends::stable_accelerators`
unfoldable pub stable_accelerators : DeclaredBackends → List String
stable_accelerators d =
    map (λ (p : String × Bool). p.0)
      (keep (λ (p : String × Bool). p.1)
        ((metal, d.metal) ∷ (vulkan, d.vulkan) ∷ (cuda, d.cuda) ∷ []))

pub record RuntimeDevice : Type 0 where
  pub backend : String
  pub index : ℕ
  pub name : String
  pub description : String
  pub memory_total : ℕ
  pub driver : String
  pub driver_cacheable : Bool

pub record Machine : Type 0 where
  pub gpu : String
  pub driver : String
  pub cacheable : Bool

-- `Machine::none`
abbrev pub no_machine : Machine
no_machine = record { gpu = "none"; driver = "none"; cacheable = true }

pub record Discovery : Type 0 where
  pub candidates : List BackendCandidate
  pub capabilities : BackendCapabilities
  pub machine : Machine
  pub accelerator_failures : List String
  pub declared_accelerators : List String

unfoldable pub normalize_backend : String → Option String
normalize_backend backend =
    if eq_ignore_ascii_case backend cpu
    then some cpu
    else if eq_ignore_ascii_case backend metal || eq_ignore_ascii_case backend "MTL"
    then some metal
    else if eq_ignore_ascii_case backend vulkan
    then some vulkan
    else if eq_ignore_ascii_case backend cuda
    then some cuda
    else none

-- `normalize_backend(...) == Some(backend)`
abbrev pub is_backend : String → Option String → Bool
is_backend backend none = false
is_backend backend (some b) = str_eq b backend

abbrev pub is_on : String → RuntimeDevice → Bool
is_on backend device = is_backend backend (normalize_backend device.backend)

unfoldable pub candidate_of : String → RuntimeDevice → BackendCandidate
candidate_of backend device = record {
  backend = backend;
  device = if is_empty_text (trim device.description) then device.name else device.description;
  device_index = some device.index;
}

-- The variables of the loops.
pub record Found : Type 0 where
  pub candidates : List BackendCandidate
  pub capabilities : BackendCapabilities
  pub identity_parts : List String
  pub driver_parts : List String
  pub cacheable : Bool

unfoldable pub add_device : String → RuntimeDevice → Found → Found
unfolding candidate_of set_capability
add_device backend device s = record {
  candidates = s.candidates ++ candidate_of backend device ∷ [];
  capabilities = set_capability s.capabilities backend true;
  identity_parts =
      s.identity_parts
      ++ concat (
          backend
          ∷ ":"
          ∷ decimal device.index
          ∷ ":"
          ∷ device.name
          ∷ ":"
          ∷ device.description
          ∷ ":"
          ∷ decimal device.memory_total
          ∷ [])
        ∷ [];
  driver_parts =
      s.driver_parts
      ++ concat (backend ∷ ":" ∷ decimal device.index ∷ ":" ∷ device.driver ∷ []) ∷ [];
  cacheable = s.cacheable && device.driver_cacheable;
}

unfoldable pub add_devices : String → List RuntimeDevice → Found → Found
unfolding add_device
add_devices backend [] s = s
add_devices backend (device ∷ devices) s = add_devices backend devices (add_device backend device s)

-- `continue` for a backend that is not declared.
unfoldable pub add_backend : DeclaredBackends → List RuntimeDevice → String → Found → Found
unfolding add_devices supports
add_backend declared devices backend s =
    if not (supports declared backend)
    then s
    else add_devices backend (keep (is_on backend) devices) s

abbrev pub cpu_candidate : BackendCandidate
cpu_candidate = record { backend = cpu; device = cpu; device_index = none }

unfoldable pub machine_of : Found → Machine
machine_of s = if is_empty s.identity_parts then no_machine else record {
  gpu = join "," s.identity_parts;
  driver = join "," s.driver_parts;
  cacheable = s.cacheable;
}

abbrev pub nothing_found : Found
nothing_found = record {
  candidates = cpu_candidate ∷ [];
  capabilities = cpu_only;
  identity_parts = [];
  driver_parts = [];
  cacheable = true;
}

unfoldable pub discover_candidates : DeclaredBackends → List RuntimeDevice → Discovery
unfolding add_backend machine_of stable_accelerators
discover_candidates declared devices =
    let s =
      add_backend declared devices cuda
        (add_backend declared devices vulkan (add_backend declared devices metal nothing_found)) in
    record {
      candidates = s.candidates;
      capabilities = s.capabilities;
      machine = machine_of s;
      accelerator_failures = [];
      declared_accelerators = stable_accelerators declared;
    }
