-- ===== src/Backend/Select/Tests.antt =====
-- A machine with a Metal device and a CUDA device, of which the package declares CUDA; the CUDA device
-- is measured to be the faster, the choice is cached, taken again, and invalidated.
use julie_semantic_sidecar.Prelude.{
  ℕ, String, str_eq, true, false, ◌≡◌, refl, sym, ◌+◌, ◌⊎◌, if◌then◌else◌, ◌++◌, not, is_empty,
  List, [], ◌∷◌, Option, none, some, Result, ok,
}
use julie_semantic_sidecar.Backend.Selection.{cpu, metal, vulkan, cuda, BackendCandidate}
use julie_semantic_sidecar.Backend.Discovery.{
  DeclaredBackends, RuntimeDevice, Machine, Discovery, cpu_candidate, discover_candidates,
}
use julie_semantic_sidecar.Sanitize.{is_empty as is_empty_text}
use julie_semantic_sidecar.Backend.Discovery.Laws.{candidates_on, offered, discover_candidates_lem}
use julie_semantic_sidecar.Backend.Runtime.{ProbeTiming, RuntimeSelection}
use julie_semantic_sidecar.Backend.Cache.{
  RuntimeCache, from_runtime, insert_entry, remove_entry, read_runtime_store, CacheCodec,
  IsFaithful, CacheIo, read_runtime_cache, write_runtime_cache, invalidate_cached_selection,
}
use julie_semantic_sidecar.Backend.Cache.Laws.{
  as_cached, IsUnwritten, read_runtime_cache-write, read_runtime_cache-invalidate,
}
use julie_semantic_sidecar.Backend.Select.{select_runtime_with, forced_cpu_runtime}

abbrev pub device : String → ℕ → RuntimeDevice
device backend index = record {
  backend = backend;
  index = index;
  name = backend;
  description = " ";
  memory_total = 8000;
  driver = "1.0";
  driver_cacheable = true;
}

abbrev devices : List RuntimeDevice
devices = device "MTL" 0 ∷ device "CUDA" 1 ∷ []

abbrev pub declared : DeclaredBackends
declared = record {
  metal = false;
  vulkan = true;
  cuda = true;
  rocm = false;
  dynamic_backends = false;
}

abbrev cuda_candidate : BackendCandidate
cuda_candidate = record { backend = cuda; device = "CUDA"; device_index = some 1 }

abbrev found : Discovery
found = discover_candidates declared devices

discover_candidates_lem_example :
    (found.candidates
      ≡ cpu_candidate
        ∷ (candidates_on declared devices metal
            ++ (candidates_on declared devices vulkan ++ candidates_on declared devices cuda)))
    × (found.capabilities ≡ record {
      cpu = true;
      cuda = not (is_empty (offered declared devices cuda));
      directml = false;
      mps = false;
      metal = not (is_empty (offered declared devices metal));
      vulkan = not (is_empty (offered declared devices vulkan));
    })
discover_candidates_lem_example = discover_candidates_lem declared devices

-- A codec whose bytes are the stores, and a file system that fails nowhere.
abbrev pub codec : CacheCodec
codec = record {
  Bytes = RuntimeCache;
  to_vec = λ (store : RuntimeCache). some store;
  from_slice = λ (store : RuntimeCache). some store;
}

codec-IsFaithful : IsFaithful codec
codec-IsFaithful store raw e = (store, sym e, λ key. refl)

abbrev pub io : CacheIo
io = record {
  create_dir_all = true;
  open_lock = true;
  lock = true;
  new_temporary = true;
  write_all = true;
  sync_all = true;
  persist = true;
}

abbrev timings : BackendCandidate → ℕ → Result ProbeTiming String × ℕ
timings c n = (
  ok (
      if str_eq c.backend cpu
      then record { batch_1 = 9; batch_16 = 90 }
      else record { batch_1 = 2; batch_16 = 12 }),
  n + 1,
)

abbrev pub gpu_of : Machine → String
gpu_of m = m.gpu

abbrev run :
    Option String
    → Option RuntimeCache
    → Option (Result RuntimeSelection String × Option RuntimeCache × ℕ)
run forced file = select_runtime_with timings codec io gpu_of forced (some found) file 0

read_runtime_cache-write_example :
    let file = write_runtime_cache codec io "key" forced_cpu_runtime none in
    IsUnwritten codec codec-IsFaithful io
      (insert_entry "key" (from_runtime forced_cpu_runtime) (read_runtime_store codec none))
      none
      file
    ⊎ ((k : String)
        → read_runtime_cache codec file k ≡ (
            if str_eq "key" k
            then some (as_cached codec codec-IsFaithful k forced_cpu_runtime)
            else read_runtime_cache codec none k))
read_runtime_cache-write_example =
    read_runtime_cache-write codec codec-IsFaithful io "key" forced_cpu_runtime none

abbrev keyed_runtime : RuntimeSelection
keyed_runtime = record forced_cpu_runtime { cache_key = some "key" }

abbrev written : Option RuntimeCache
written = write_runtime_cache codec io "key" forced_cpu_runtime none

read_runtime_cache-invalidate_example :
    let file = invalidate_cached_selection codec io keyed_runtime written in
    IsUnwritten codec codec-IsFaithful io
      (remove_entry "key" (read_runtime_store codec written))
      written
      file
    ⊎ ((k : String)
        → read_runtime_cache codec file k
          ≡ (if str_eq "key" k then none else read_runtime_cache codec written k))
read_runtime_cache-invalidate_example =
    read_runtime_cache-invalidate codec codec-IsFaithful io "key" keyed_runtime written refl
