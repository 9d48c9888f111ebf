-- ===== src/Engine/Policy.antt =====
-- `LlamaEngine::load_with_policy`: the checks on the model file, the choice of a backend, the final load
-- and its fallback to the CPU; and the engine as the wire protocol and the broker see it.
pub mod Decided
pub mod Placed
pub mod Laws
pub mod Cpu
pub mod Tests
use julie_semantic_sidecar.Prelude.{
  ℕ, String, concat, Bool, true, false, not, if◌then◌else◌, str_eq, List, [], ◌∷◌, Option, none,
  some, Result, ok, err, map_err,
}
use julie_semantic_sidecar.Prelude.Str.{eq_ignore_ascii_case}
use julie_semantic_sidecar.Sanitize.{trim, is_empty as is_empty_text}
use julie_semantic_sidecar.Json.{Value, Serde}
use julie_semantic_sidecar.EngineTrait.{Role, EmbedOutput, EngineError, engine_error, EmbedEngine}
use julie_semantic_sidecar.Manifest.{ModelPin}
use julie_semantic_sidecar.Health.{BackendCapabilities, EngineFacts, ready, default_limits, build}
use julie_semantic_sidecar.Broker.Engine.{BackendPolicy, auto, cpu_only}
use julie_semantic_sidecar.Backend.Selection.{
  cpu, BackendCandidate, degraded_to_cpu, set_capability,
}
use julie_semantic_sidecar.Backend.Discovery.{
  DeclaredBackends, Machine, Discovery, cpu_candidate, discover_candidates,
}
use julie_semantic_sidecar.Backend.Runtime.{ProbeTiming, RuntimeSelection}
use julie_semantic_sidecar.Backend.Cache.{CacheCodec, CacheIo, invalidate_cached_selection}
use julie_semantic_sidecar.Backend.Select.{select_runtime_with}
use julie_semantic_sidecar.Backend.Modules.{
  ModuleLoadReport, Directory, ModuleFile, ℤ, load_packaged_modules_from_executable,
  load_packaged_cpu_modules_from_executable,
}
use julie_semantic_sidecar.Engine.Llama.{Llama}
use julie_semantic_sidecar.Engine.Lane.{Float}
use julie_semantic_sidecar.Engine.Devices.{Target, ListedDevice, runtime_devices}
use julie_semantic_sidecar.Engine.Embed.{LlamaEngine, embed}
use julie_semantic_sidecar.Engine.Load.{
  Native, final, fallback, Loaded, ended, load_candidate, benchmark_candidate,
}

abbrev unless_empty : String → Option String
unless_empty trimmed = if is_empty_text trimmed then none else some trimmed

-- `forced_backend` of src/backend_select.rs, from the variable's value.
abbrev pub forced_backend : Option String → Option String
forced_backend none = none
forced_backend (some value) = unless_empty (trim value)

-- `verify_cached_digest`, from what `file_digest` returns for the file.
unfoldable pub verify_cached_digest :
    String → Result String String → String → Result (Unit {0}) EngineError
verify_cached_digest path (err reason) expected = err (
    engine_error "ModelNotPrepared"
      (concat ("cannot read " ∷ path ∷ " to verify its digest: " ∷ reason ∷ [])))
verify_cached_digest path (ok actual) expected =
    if eq_ignore_ascii_case actual expected
    then ok tt
    else err (
        engine_error "ModelNotPrepared" (
          concat (
            path ∷ " does not match its pinned digest: expected sha256 " ∷ expected ∷ ", found "
            ∷ actual ∷ "; delete it and re-run `prepare`" ∷ [])))

-- What the program finds when it starts: the file of the model, its environment, the package, and the
-- devices that llama.cpp lists.
pub record Host : Type 0 where
  pub path : String
  pub is_file : Bool
  pub file_digest : Result String String
  pub forced_value : Option String
  -- `current_exe` and its parent.
  pub current_exe : Result (Option Directory) String
  pub windows : Bool
  pub target : Target
  pub tool_output : String → List String → Option String
  pub declared : DeclaredBackends
  pub listed_devices : List ListedDevice
  pub backend_init : Result (Unit {0}) String

abbrev pub is_forced_cpu : Option String → Bool
is_forced_cpu none = false
is_forced_cpu (some value) = eq_ignore_ascii_case value cpu

-- What a load may change: the file of the cached choice, the native modules, and the clock.
pub record LoadState (Bytes L W : Type 0) : Type 0 where
  pub cache_file : Option Bytes
  pub modules : L
  pub clock : W

abbrev pub wanted_backend : BackendPolicy → Option String → Option String
wanted_backend auto forced_value = forced_backend forced_value
wanted_backend cpu_only forced_value = some cpu

module _ {F Ctx Batch L W : Type 0} (float : Float F) (from_utf8 : List ℕ → Result String String)
    (native : Native F Ctx Batch W) (codec : CacheCodec) (io : CacheIo)
    (cache_key_of : Machine → String) (score : ModuleFile → L → Result ℤ String × L)
    (load_module : ModuleFile → L → Result (Unit {0}) String × L) (host : Host)
    (pin : ModelPin) where
  abbrev pub Engine : Type 0
  Engine = Loaded float from_utf8 native

  -- An answer, with what the load left; `none` is a panic.
  abbrev pub Answer : Type 0
  Answer = Option (Result Engine EngineError × LoadState codec.Bytes L W)

  abbrev pub chosen_candidate : RuntimeSelection → BackendCandidate
  chosen_candidate runtime = record {
    backend = runtime.selection.resolved;
    device = runtime.device;
    device_index = runtime.device_index;
  }

  -- The second attempt, on the CPU.
  unfoldable pub load_fallback : RuntimeSelection → EngineError → Result Engine EngineError
  unfolding set_capability degraded_to_cpu
  load_fallback runtime error =
      let backend = runtime.selection.resolved in
      load_candidate float from_utf8 native fallback pin cpu_candidate
        (degraded_to_cpu backend (concat (backend ∷ " final load failed: " ∷ error.message ∷ [])))
        (set_capability runtime.capabilities backend false)

  unfoldable pub load_final :
      RuntimeSelection → Option codec.Bytes → Result Engine EngineError × Option codec.Bytes
  unfolding load_fallback
  load_final runtime file =
      elim (load_candidate float from_utf8 native final pin (chosen_candidate runtime)
        runtime.selection runtime.capabilities) [
          | ok engine ↦ (ok engine, file)
          | err error ↦
              if not (str_eq runtime.selection.resolved cpu)
              then (load_fallback runtime error, invalidate_cached_selection codec io runtime file)
              else (err error, file)
        ]

  abbrev finished : Result Engine EngineError × Option codec.Bytes → L → W → Answer
  finished (answer, file) l w = some (answer, record { cache_file = file; modules = l; clock = w })

  -- From the choice on, with the answer of `LlamaBackend::init`; a panic of the choice is one here.
  abbrev load_selected :
      Result (Unit {0}) String
      → Option (Result RuntimeSelection String × Option codec.Bytes × W)
      → L
      → Answer
  load_selected init none l = none
  load_selected init (some (err reason, file, w)) l =
      finished (err (engine_error "BackendProbe" reason), file) l w
  load_selected (err reason) (some (ok runtime, file, w)) l =
      finished (err (engine_error "BackendInit" reason), file) l w
  load_selected (ok done) (some (ok runtime, file, w)) l = finished (load_final runtime file) l w

  -- `forced_cpu_runtime_with`: the CPU's modules are loaded before the choice, which must not discover.
  unfoldable pub load_forced_cpu : Option Directory → LoadState codec.Bytes L W → Answer
  unfolding load_final
  load_forced_cpu parent s =
      let (loaded, l) =
        load_packaged_cpu_modules_from_executable host.windows score load_module parent
          host.declared s.modules in
      elim loaded [
        | err reason ↦
            finished (err (engine_error "BackendDiscovery" reason), s.cache_file) l s.clock
        | ok done ↦
            load_selected host.backend_init
              (select_runtime_with (benchmark_candidate float from_utf8 native pin) codec io
                cache_key_of (some cpu) none s.cache_file s.clock)
              l
      ]

  abbrev pub discovered : List String → Discovery
  discovered failures =
      record (discover_candidates host.declared
        (runtime_devices host.target host.tool_output host.listed_devices)) {
          accelerator_failures = failures;
        }

  -- From `LlamaBackend::init` on.
  unfoldable pub load_initialised :
      Result (Unit {0}) String → Option String → List String → LoadState codec.Bytes L W → Answer
  unfolding load_final
  load_initialised (err reason) forced failures s =
      finished (err (engine_error "BackendInit" reason), s.cache_file) s.modules s.clock
  load_initialised (ok done) forced failures s =
      load_selected (ok done)
        (select_runtime_with (benchmark_candidate float from_utf8 native pin) codec io cache_key_of
          forced (some (discovered failures)) s.cache_file s.clock)
        s.modules

  unfoldable pub load_discovered :
      Option String → Option Directory → LoadState codec.Bytes L W → Answer
  unfolding load_initialised
  load_discovered forced parent s =
      let (loaded, l) =
        load_packaged_modules_from_executable host.windows score load_module parent host.declared
          s.modules in
      elim loaded [
        | err reason ↦
            finished (err (engine_error "BackendDiscovery" reason), s.cache_file) l s.clock
        | ok report ↦
            load_initialised host.backend_init forced report.accelerator_failures
              (record s { modules = l })
      ]

  unfoldable pub load_located :
      Result (Option Directory) String → BackendPolicy → LoadState codec.Bytes L W → Answer
  unfolding load_forced_cpu load_discovered
  load_located (err reason) policy s =
      finished
        (
          err (
              engine_error "BackendDiscovery"
                (concat ("cannot resolve executable: " ∷ reason ∷ []))),
          s.cache_file,
        )
        s.modules s.clock
  load_located (ok parent) policy s =
      let forced = wanted_backend policy host.forced_value in
      if is_forced_cpu forced then load_forced_cpu parent s else load_discovered forced parent s

  unfoldable pub load_guarded : BackendPolicy → LoadState codec.Bytes L W → Answer
  unfolding load_located
  load_guarded policy s = load_located host.current_exe policy s

  unfoldable pub load_with_policy : BackendPolicy → LoadState codec.Bytes L W → Answer
  unfolding verify_cached_digest load_guarded
  load_with_policy policy s =
      if not host.is_file
      then finished
          (
            err (
                engine_error "ModelNotPrepared"
                  (concat (host.path ∷ " is not in the cache; run `prepare`" ∷ []))),
            s.cache_file,
          )
          s.modules s.clock
      else elim (verify_cached_digest host.path host.file_digest pin.sha256) [
        | err e ↦ finished (err e, s.cache_file) s.modules s.clock
        | ok verified ↦ load_guarded policy s
      ]

  -- `LlamaEngine::engine_facts`
  unfoldable pub engine_facts : LlamaEngine → EngineFacts
  engine_facts engine = record {
    runtime = "llama.cpp";
    device = engine.device;
    requested_backend = engine.selection.requested;
    resolved_backend = engine.selection.resolved;
    accelerated = engine.selection.accelerated;
    degraded_reason = engine.selection.degraded_reason;
    capabilities = engine.capabilities;
    llama_cpp_build = "llama-cpp-2 0.1.151 (llama-cpp-rs 7f0a0d95, vendored llama.cpp)";
  }

  -- `EmbedEngine for LlamaEngine`; the engine is not changed by what it is asked.
  unfoldable pub llama_engine : {N : Type 0} → Serde F N → String → EmbedEngine F N Engine
  unfolding engine_facts embed build
  llama_engine serde sidecar_version = record {
    health_facts = λ e. ok (
        build serde (ready e.0.pin e.0.pin.serve_dims) (engine_facts e.0) default_limits
          sidecar_version);
    is_accelerated = λ e. e.0.selection.accelerated;
    embed = λ e texts role. (ended (embed float e.1 from_utf8 e.0 texts role), e);
  }
