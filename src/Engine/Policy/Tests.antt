-- ===== src/Engine/Policy/Tests.antt =====
-- A load on a machine with a CUDA device, and a package with a base module and two variants of it.
use julie_semantic_sidecar.Prelude.{
  ℕ, ◌+◌, String, str_eq, true, false, if◌then◌else◌, ◌≡◌, List, [], ◌∷◌, Option, none, some,
  Result, ok,
}
use julie_semantic_sidecar.EngineTrait.{document}
use julie_semantic_sidecar.Health.Tests.{serde}
use julie_semantic_sidecar.Broker.Engine.{auto, cpu_only, BrokerEngineState, load_with, take_over}
use julie_semantic_sidecar.Backend.Modules.{DirEntry, Directory, ModuleFile, ℤ, pos, negsuc}
use julie_semantic_sidecar.Backend.Cache.{RuntimeCache}
use julie_semantic_sidecar.Backend.Select.Tests.{declared, codec, io, gpu_of}
use julie_semantic_sidecar.Engine.Embed.Tests.{float, llama, from_utf8, two_wide}
use julie_semantic_sidecar.Engine.Load.{Native, Loaded}
use julie_semantic_sidecar.Engine.Policy.{Host, LoadState, load_with_policy}
use julie_semantic_sidecar.Engine.Policy.Laws.{IsReturned, load_with_policy-IsReturned}
use julie_semantic_sidecar.Engine.Policy.Cpu.{IsCpuLoad, load_with_policy_cpu}
use julie_semantic_sidecar.Broker.Loader.{LoadedEngine}
use julie_semantic_sidecar.Broker.Loader.Laws.{started, taken, engine, call, load_with_cpu}

-- The clock ticks once with each look.
abbrev native : Native ℕ (List (List ℕ)) (List (List ℕ)) ℕ
native = record {
  with_devices = λ indexes. ok tt;
  load_from_file = λ attempt params. ok llama;
  now = λ w. (w, w + 1);
}

abbrev file : String → Option DirEntry
file name = some (record { path = name; file_name = some name; is_file = true })

abbrev directory : Directory
directory = record {
  to_str = some "/opt/julie";
  is_dir = true;
  read_dir = ok (
      file "libggml-cuda.so"
      ∷ file "libggml-cpu.so"
      ∷ none
      ∷ file "libggml-cpu-alderlake.so"
      ∷ file "libggml-cpu-x64.so"
      ∷ file "README.md"
      ∷ []);
}

abbrev score : ModuleFile → ℕ → Result ℤ String × ℕ
score m n = (ok (if str_eq m.name "libggml-cpu-x64.so" then pos 3 else negsuc 0), n)

-- Each load is counted.
abbrev load_module : ModuleFile → ℕ → Result (Unit {0}) String × ℕ
load_module m n = (ok tt, n + 1)

abbrev host : Host
host = record {
  path = "/cache/model.gguf";
  is_file = true;
  file_digest = ok two_wide.sha256;
  forced_value = some "cuda";
  current_exe = ok (some directory);
  windows = false;
  target = record { windows = false; macos = false; unix = true };
  tool_output = λ program arguments. some "550.1";
  declared = record declared { dynamic_backends = true };
  listed_devices =
      record {
        backend = "CUDA";
        index = 1;
        name = "CUDA0";
        description = "RTX";
        memory_total = 8000;
      }
      ∷ [];
  backend_init = ok tt;
}

abbrev start : LoadState RuntimeCache ℕ ℕ
start = record { cache_file = none; modules = 0; clock = 0 }

load_with_policy-IsReturned_example :
    IsReturned float from_utf8 native codec io gpu_of score load_module host two_wide auto start (
      load_with_policy float from_utf8 native codec io gpu_of score load_module host two_wide auto
        start)
load_with_policy-IsReturned_example =
    load_with_policy-IsReturned float from_utf8 native codec io gpu_of score load_module host
      two_wide auto start

load_with_policy_cpu_example :
    IsCpuLoad float from_utf8 native codec io gpu_of score load_module host two_wide start (
      load_with_policy float from_utf8 native codec io gpu_of score load_module host two_wide
        cpu_only start)
load_with_policy_cpu_example =
    load_with_policy_cpu float from_utf8 native codec io gpu_of score load_module host two_wide
      start

abbrev exhausted :
    BrokerEngineState (LoadedEngine (Loaded float from_utf8 native)) (LoadState RuntimeCache ℕ ℕ)
exhausted = record {
  inner = none;
  accelerator_lease = false;
  loader = some start;
  degraded_reason = some "accelerator_resource_exhausted";
  terminal_failure = none;
}

load_with_cpu_example :
    let device =
      engine serde "0.3.0" float from_utf8 native codec io gpu_of score load_module host two_wide in
    let load =
      call serde "0.3.0" float from_utf8 native codec io gpu_of score load_module host two_wide in
    (load_with device load false start ≡ started (load cpu_only start))
    × (take_over device load exhausted (load cpu_only start).0 ("a" ∷ []) document
        ≡ taken device exhausted (load cpu_only start).0 ("a" ∷ []) document)
load_with_cpu_example =
    load_with_cpu serde "0.3.0" float from_utf8 native codec io gpu_of score load_module host
      two_wide start exhausted ("a" ∷ []) document
