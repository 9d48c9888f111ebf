-- ===== src/Backend/Selection.antt =====
-- The decision's data: candidates, selections, and the names of the backends.
use julie_semantic_sidecar.Prelude.{ℕ, String, str_eq, Bool, not, Option, none, some, if◌then◌else◌}
use julie_semantic_sidecar.Health.{BackendCapabilities}

abbrev pub cpu : String
cpu = "cpu"

abbrev pub metal : String
metal = "metal"

abbrev pub vulkan : String
vulkan = "vulkan"

abbrev pub cuda : String
cuda = "cuda"

pub record BackendCandidate : Type 0 where
  pub backend : String
  pub device : String
  pub device_index : Option ℕ

pub record Selection : Type 0 where
  pub requested : String
  pub resolved : String
  pub accelerated : Bool
  pub degraded_reason : Option String

-- `Selection::new`, `Selection::cpu` and `Selection::degraded_to_cpu`
unfoldable pub selection : String → String → Option String → Selection
selection requested resolved degraded_reason = record {
  requested = requested;
  resolved = resolved;
  accelerated = not (str_eq resolved cpu);
  degraded_reason = degraded_reason;
}

unfoldable pub cpu_selection : Selection
unfolding selection
cpu_selection = selection cpu cpu none

unfoldable pub degraded_to_cpu : String → String → Selection
unfolding selection
degraded_to_cpu requested reason = selection requested cpu (some reason)

-- `set_capability`; `disable_capability` of src/engine.rs is this with `false`.
unfoldable pub set_capability : BackendCapabilities → String → Bool → BackendCapabilities
set_capability capabilities backend available =
    if str_eq backend metal
    then record capabilities { metal = available }
    else if str_eq backend vulkan
    then record capabilities { vulkan = available }
    else if str_eq backend cuda
    then record capabilities { cuda = available }
    else capabilities
