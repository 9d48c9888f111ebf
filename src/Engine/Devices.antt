-- ===== src/Engine/Devices.antt =====
-- The devices that llama.cpp lists, with the identity of each one's driver. What a tool of the system
-- prints is the parameter `output`; the `cfg!` tests on the target are an argument.
use julie_semantic_sidecar.Prelude.{
  ℕ, String, str_eq, concat, Bool, true, false, ◌&&◌, ◌||◌, if◌then◌else◌, List, [], ◌∷◌, Option,
  none, some,
}
use julie_semantic_sidecar.Prelude.Str.{to_ascii_lowercase, eq_ignore_ascii_case}
use julie_semantic_sidecar.Backend.Selection.{cpu, metal, vulkan, cuda}
use julie_semantic_sidecar.Backend.Discovery.{RuntimeDevice}

pub record DriverIdentity : Type 0 where
  pub value : String
  pub cacheable : Bool

-- The target's `cfg!`: `unix` holds of macOS too.
pub record Target : Type 0 where
  pub windows : Bool
  pub macos : Bool
  pub unix : Bool

-- A device as llama.cpp lists it.
pub record ListedDevice : Type 0 where
  pub backend : String
  pub index : ℕ
  pub name : String
  pub description : String
  pub memory_total : ℕ

abbrev pub Identities : Type 0
Identities = List (String × DriverIdentity)

abbrev lookup : String → Identities → Option DriverIdentity
lookup key [] = none
lookup key (e ∷ rest) = elim (str_eq e.0 key) [ true ↦ some e.1 | false ↦ lookup key rest ]

module _ (target : Target) (output : String → List String → Option String) where
  -- `output` of one tool where the test on backend and target passes.
  abbrev asked : Bool → String → List String → Option String
  asked false program arguments = none
  asked true program arguments = output program arguments

  abbrev tagged : String → Option String → Option DriverIdentity → Option DriverIdentity
  tagged tag none rest = rest
  tagged tag (some value) rest =
      some (record { value = concat (tag ∷ value ∷ []); cacheable = true })

  abbrev or_unknown : Option String → String
  or_unknown none = "unknown"
  or_unknown (some platform) = platform

  unfoldable pub platform : String
  platform = or_unknown (
      if target.macos
      then output "sysctl" ("-n" ∷ "kern.osversion" ∷ [])
      else if target.unix
      then output "uname" ("-r" ∷ [])
      else if target.windows
      then output "cmd" ("/C" ∷ "ver" ∷ [])
      else none)

  -- The four tools, in order; the first that answers ends the search.
  unfoldable pub verified : String → Option DriverIdentity
  verified backend =
      tagged "cuda:"
        (asked (eq_ignore_ascii_case backend cuda) "nvidia-smi"
          ("--query-gpu=driver_version" ∷ "--format=csv,noheader" ∷ []))
        (tagged "vulkan:"
          (asked (eq_ignore_ascii_case backend vulkan) "vulkaninfo" ("--summary" ∷ []))
          (tagged "windows-gpu:"
            (asked target.windows "powershell.exe" (
              "-NoProfile" ∷ "-Command"
              ∷ "Get-CimInstance Win32_VideoController | Select-Object Name,DriverVersion | ConvertTo-Json -Compress"
              ∷ []))
            (tagged "metal:"
              (asked
                (target.macos
                  && (eq_ignore_ascii_case backend metal || eq_ignore_ascii_case backend "MTL"))
                "sysctl" ("-n" ∷ "kern.osversion" ∷ []))
              none)))

  abbrev or_unverified : String → String → String → Option DriverIdentity → DriverIdentity
  or_unverified backend name description (some identity) = identity
  or_unverified backend name description none = record {
    value = concat (
        "backend=" ∷ backend ∷ ";name=" ∷ name ∷ ";description=" ∷ description ∷ ";platform="
        ∷ platform ∷ ";driver=unverified" ∷ []);
    cacheable = false;
  }

  unfoldable pub driver_identity_with : String → String → String → DriverIdentity
  unfolding verified platform
  driver_identity_with backend name description =
      or_unverified backend name description (verified backend)

  abbrev remembered :
      String → DriverIdentity → Option DriverIdentity → Identities → DriverIdentity × Identities
  remembered key fresh none identities = (fresh, (key, fresh) ∷ identities)
  remembered key fresh (some known) identities = (known, identities)

  unfoldable pub cached_driver_identity_with :
      Identities → String → String → String → DriverIdentity × Identities
  unfolding driver_identity_with
  cached_driver_identity_with identities backend name description =
      if eq_ignore_ascii_case backend cpu
      then (record { value = cpu; cacheable = true }, identities)
      else remembered (to_ascii_lowercase backend) (driver_identity_with backend name description)
          (lookup (to_ascii_lowercase backend) identities) identities

  unfoldable pub runtime_devices_from : Identities → List ListedDevice → List RuntimeDevice
  unfolding cached_driver_identity_with
  runtime_devices_from identities [] = []
  runtime_devices_from identities (d ∷ rest) =
      let (identity, known) =
        cached_driver_identity_with identities d.backend d.name d.description in
      record {
        backend = d.backend;
        index = d.index;
        name = d.name;
        description = d.description;
        memory_total = d.memory_total;
        driver = identity.value;
        driver_cacheable = identity.cacheable;
      }
      ∷ runtime_devices_from known rest

  unfoldable pub runtime_devices : List ListedDevice → List RuntimeDevice
  unfolding runtime_devices_from
  runtime_devices listed = runtime_devices_from [] listed
