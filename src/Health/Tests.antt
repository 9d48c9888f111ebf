-- ===== src/Health/Tests.antt =====
-- The health of an engine on the CPU, and of one whose accelerator ran out of memory.
use julie_semantic_sidecar.Prelude.{ℕ, ◌==◌, false, none, some, ok}
use julie_semantic_sidecar.Json.{null, number, Serde}
use julie_semantic_sidecar.Manifest.{bge_small}
use julie_semantic_sidecar.Health.{
  EngineFacts, ready, default_limits, build, cpu_only, apply_broker_runtime_facts,
  accelerator_resource_exhausted,
}
use julie_semantic_sidecar.Health.Laws.{IsBrokerHealth, apply_broker_runtime_facts-build}

abbrev pub serde : Serde ℕ ℕ
serde = record {
  of_usize = λ n. n;
  of_f32 = λ f. number f;
  as_f64_is = λ n v. n == v;
  from_str = λ text. ok null;
  to_string = λ v. ok "null";
  show = λ v. "null";
}

abbrev on_cpu : EngineFacts
on_cpu = record {
  runtime = "llama.cpp";
  device = "cpu";
  requested_backend = "cpu";
  resolved_backend = "cpu";
  accelerated = false;
  degraded_reason = none;
  capabilities = cpu_only;
  llama_cpp_build = "b1";
}

apply_broker_runtime_facts-build_example :
    IsBrokerHealth serde
      (ready bge_small 384)
      on_cpu
      default_limits
      "0.1.0"
      false
      (some accelerator_resource_exhausted)
      (apply_broker_runtime_facts
        (build serde (ready bge_small 384) on_cpu default_limits "0.1.0")
        false
        (some accelerator_resource_exhausted))
apply_broker_runtime_facts-build_example =
    apply_broker_runtime_facts-build serde (ready bge_small 384) on_cpu default_limits "0.1.0" false
      (some accelerator_resource_exhausted)
