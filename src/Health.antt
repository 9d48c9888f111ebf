-- ===== src/Health.antt =====
-- src/health.rs: the `health` result.
pub mod Laws
pub mod Tests
use julie_semantic_sidecar.Prelude.{
  ℕ, ◌*◌, String, str_eq, Bool, true, false, not, List, [], ◌∷◌, map, Option, none, some,
  if◌then◌else◌,
}
use julie_semantic_sidecar.Json.{
  Value, null, bool, number, string, array, object, Fields, end, Serde, get, insert, json_array,
  json_object,
}
use julie_semantic_sidecar.Manifest.{ModelPin, pooling_str}

abbrev pub max_batch_items : ℕ
max_batch_items = 250

abbrev pub max_request_bytes : ℕ
max_request_bytes = 32 * 1024 * 1024

abbrev pub backend_fallback_reason : String
backend_fallback_reason = "requested_backend_unavailable"

abbrev pub model_not_prepared : String
model_not_prepared = "model_not_prepared"

abbrev pub accelerator_resource_exhausted : String
accelerator_resource_exhausted = "accelerator resource exhausted; permanently demoted to CPU"

pub record BackendCapabilities : Type 0 where
  pub cpu : Bool
  pub cuda : Bool
  pub directml : Bool
  pub mps : Bool
  pub metal : Bool
  pub vulkan : Bool

-- `BackendCapabilities::cpu_only`
abbrev pub cpu_only : BackendCapabilities
cpu_only = record {
  cpu = true;
  cuda = false;
  directml = false;
  mps = false;
  metal = false;
  vulkan = false;
}

pub record EngineFacts : Type 0 where
  pub runtime : String
  pub device : String
  pub requested_backend : String
  pub resolved_backend : String
  pub accelerated : Bool
  pub degraded_reason : Option String
  pub capabilities : BackendCapabilities
  pub llama_cpp_build : String

pub data ModelState : Type 0 where
  ready : ModelPin → ℕ → ModelState
  not_prepared : ModelPin → ModelState

-- `ModelState::pin` and `ModelState::dims`
unfoldable pub pin_of : ModelState → ModelPin
pin_of (ready pin dims) = pin
pin_of (not_prepared pin) = pin

unfoldable pub dims_of : ModelState → Option ℕ
dims_of (ready pin dims) = some dims
dims_of (not_prepared pin) = none

pub record Limits : Type 0 where
  pub max_batch_items : ℕ
  pub max_request_bytes : ℕ

-- `Limits::default`
abbrev pub default_limits : Limits
default_limits = record { max_batch_items = max_batch_items; max_request_bytes = max_request_bytes }

unfoldable pub resolve_degraded_reason : ModelState → EngineFacts → Option String
resolve_degraded_reason (not_prepared pin) engine = some model_not_prepared
resolve_degraded_reason (ready pin dims) engine = elim engine.degraded_reason [
  | some reason ↦ some reason
  | none ↦
      if not (str_eq engine.requested_backend engine.resolved_backend)
      then some backend_fallback_reason
      else none
]

module _ {F N : Type 0} (serde : Serde F N) where
  abbrev available : Bool → Value N
  available b = json_object (("available", bool b) ∷ [])

  -- `BackendCapabilities::to_value`
  unfoldable pub to_value : BackendCapabilities → Value N
  to_value c = json_object (
      ("cpu", available c.cpu)
      ∷ ("cuda", available c.cuda)
      ∷ ("directml", available c.directml)
      ∷ ("mps", available c.mps)
      ∷ ("metal", available c.metal)
      ∷ ("vulkan", available c.vulkan)
      ∷ [])

  abbrev pub opt_string : Option String → Value N
  opt_string none = null
  opt_string (some s) = string s

  abbrev usize : ℕ → Value N
  usize n = number (serde.of_usize n)

  insert_dims : Option ℕ → Fields N → Fields N
  insert_dims none result = result
  insert_dims (some dims) result = insert "dims" (usize dims) result

  abbrev is_some : Option ℕ → Bool
  is_some none = false
  is_some (some n) = true

  abbrev insert_all : List (String × Value N) → Fields N → Fields N
  insert_all [] result = result
  insert_all ((k, v) ∷ kvs) result = insert_all kvs (insert k v result)

  load_policy : EngineFacts → Option String → Value N
  load_policy engine reason = json_object (
      ("requested_device_backend", string engine.requested_backend)
      ∷ ("resolved_device_backend", string engine.resolved_backend)
      ∷ ("accelerated", bool engine.accelerated)
      ∷ ("degraded_reason", opt_string reason)
      ∷ [])

  unfoldable pub build_fields : ModelState → EngineFacts → Limits → String → Fields N
  unfolding insert_dims load_policy to_value pin_of dims_of
  build_fields model engine limits sidecar_version =
      let pin = pin_of model in
      let reason = resolve_degraded_reason model engine in
      insert_all
        (("model_id", string pin.id)
          ∷ ("model_sha256", string pin.sha256)
          ∷ ("model_revision", string pin.model_revision)
          ∷ ("runtime", string engine.runtime)
          ∷ ("device", string engine.device)
          ∷ ("resolved_backend", string engine.resolved_backend)
          ∷ ("accelerated", bool engine.accelerated)
          ∷ ("degraded_reason", opt_string reason)
          ∷ ("capabilities", to_value engine.capabilities)
          ∷ ("load_policy", load_policy engine reason)
          ∷ ("pooling", string (pooling_str pin.pooling))
          ∷ ("normalization", string "l2")
          ∷ ("instruction_policy_version", usize 1)
          ∷ ("max_text_tokens", usize pin.max_text_tokens)
          ∷ ("max_batch_items", usize limits.max_batch_items)
          ∷ ("max_request_bytes", usize limits.max_request_bytes)
          ∷ ("native_dims", usize pin.native_dims)
          ∷ ("mrl_lanes", json_array (map usize pin.mrl_lanes))
          ∷ ("llama_cpp_build", string engine.llama_cpp_build)
          ∷ ("sidecar_version", string sidecar_version)
          ∷ [])
        (insert_dims (dims_of model) (insert "ready" (bool (is_some (dims_of model))) end))

  unfoldable pub build : ModelState → EngineFacts → Limits → String → Value N
  unfolding build_fields
  build model engine limits sidecar_version =
      object (build_fields model engine limits sidecar_version)

module _ {N : Type 0} where
  -- The mirror of the reason into `load_policy`, where that is an object.
  unfoldable pub mirror_reason : String → Option (Value N) → Fields N → Fields N
  mirror_reason reason (some (object policy)) result =
      insert "load_policy" (object (insert "degraded_reason" (string reason) policy)) result
  mirror_reason reason _ result = result

  unfoldable pub apply_reason : Option String → Fields N → Fields N
  unfolding mirror_reason
  apply_reason none result = result
  apply_reason (some reason) result =
      let marked = insert "degraded_reason" (string reason) result in
      mirror_reason reason (get "load_policy" marked) marked

  -- The mutable borrow is the new value.
  unfoldable pub apply_broker_runtime_facts : Value N → Bool → Option String → Value N
  unfolding apply_reason
  apply_broker_runtime_facts (object result) lease_held reason =
      object (apply_reason reason (insert "accelerator_lease_held" (bool lease_held) result))
  apply_broker_runtime_facts health lease_held reason = health
