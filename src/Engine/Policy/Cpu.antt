-- ===== src/Engine/Policy/Cpu.antt =====
-- A load under `CpuOnly`, and the broker that relies on it.
use julie_semantic_sidecar.Prelude.{
  ℕ, String, not, Bool-cases, ◌≡◌, refl, subst, inl, inr, List, Option, some, Result, ok, err,
  Result-cases,
}
use julie_semantic_sidecar.Prelude.Str.{eq_ignore_ascii_case}
use julie_semantic_sidecar.EngineTrait.{EngineError}
use julie_semantic_sidecar.Manifest.{ModelPin}
use julie_semantic_sidecar.Broker.Engine.{cpu_only}
use julie_semantic_sidecar.Backend.Selection.{cpu, selection, cpu_selection}
use julie_semantic_sidecar.Backend.Discovery.{Machine, cpu_candidate}
use julie_semantic_sidecar.Backend.Cache.{CacheCodec, CacheIo}
use julie_semantic_sidecar.Backend.Select.{forced_cpu_runtime}
use julie_semantic_sidecar.Backend.Modules.{
  Directory, ModuleFile, ℤ, load_packaged_cpu_modules_from_executable,
}
use julie_semantic_sidecar.Engine.Lane.{Float}
use julie_semantic_sidecar.Engine.Load.{Native, final, Loaded, load_candidate}
use julie_semantic_sidecar.Engine.Policy.{
  Host, LoadState, Answer, verify_cached_digest, load_final, load_forced_cpu, load_guarded,
  load_located, load_with_policy, load_selected,
}
use julie_semantic_sidecar.Engine.Policy.Placed.{Loads, load_candidate-Loads}
use julie_semantic_sidecar.Engine.Policy.Laws.{selects_cpu}

module _ {F Ctx Batch L W : Type 0} (float : Float F) (from_utf8 : List ℕ → Result String String)
    (native : Native F Ctx Batch W) (codec : CacheCodec) (io : CacheIo)
    (cache_key_of : Machine → String) (score : ModuleFile → L → Result ℤ String × L)
    (load_module : ModuleFile → L → Result (Unit {0}) String × L) (host : Host)
    (pin : ModelPin) where
  abbrev pub OnCpu : Result (Loaded float from_utf8 native) EngineError → Type 0
  OnCpu (ok e) = (e.0.selection ≡ cpu_selection) × (e.0.device ≡ cpu)
  OnCpu (err e) = Unit

  -- A load that leaves the cached choice and the clock alone, and has an engine on the CPU if any.
  pub data IsCpuLoad (s : LoadState codec.Bytes L W)
      (r : Answer float from_utf8 native codec io cache_key_of score load_module host pin)
      : Type 0 where
    cpu_load :
        (answer : Result (Loaded float from_utf8 native) EngineError) (l : L)
        → r ≡ some (answer, record s { modules = l })
        → OnCpu answer
        → IsCpuLoad s r

  Loads-OnCpu :
      (r : Result (Loaded float from_utf8 native) EngineError)
      → Loads float from_utf8 native pin final cpu_candidate cpu_selection r
      → OnCpu r
  Loads-OnCpu (ok e) (same, placed) = (same, placed.device)
  Loads-OnCpu (err e) h = tt

  load_final_cpu :
      (file : Option codec.Bytes)
      → (answer : Result (Loaded float from_utf8 native) EngineError) × (load_final float from_utf8
            native codec io cache_key_of score load_module host pin forced_cpu_runtime file
          ≡ (answer, file))
        × OnCpu answer
  unfolding load_final cpu_selection selection
  load_final_cpu file =
      let first =
        load_candidate float from_utf8 native final pin cpu_candidate cpu_selection
          forced_cpu_runtime.capabilities in
      let loads =
        load_candidate-Loads float from_utf8 native pin final cpu_candidate cpu_selection
          forced_cpu_runtime.capabilities in
      elim (Result-cases first) [
        | inl (e, h) ↦ (
          ok e,
          rw (h, load_final) refl,
          Loads-OnCpu (ok e)
              (subst (Loads float from_utf8 native pin final cpu_candidate cpu_selection) h loads),
        )
        | inr (error, h) ↦ (err error, rw (h, load_final) refl, tt)
      ]

  load_selected_cpu :
      (init : Result (Unit {0}) String) (s : LoadState codec.Bytes L W) (l : L)
      → IsCpuLoad s (
          load_selected float from_utf8 native codec io cache_key_of score load_module host pin init
            (some (ok forced_cpu_runtime, s.cache_file, s.clock))
            l)
  load_selected_cpu (err reason) s l = cpu_load _ l refl tt
  load_selected_cpu (ok done) s l =
      let (answer, e, there) = load_final_cpu s.cache_file in cpu_load answer l (rw (e) refl) there

  load_forced_cpu_lem :
      (parent : Option Directory) (s : LoadState codec.Bytes L W)
      → IsCpuLoad s (
          load_forced_cpu float from_utf8 native codec io cache_key_of score load_module host pin
            parent s)
  unfolding load_forced_cpu
  load_forced_cpu_lem parent s =
      elim (Result-cases
        (load_packaged_cpu_modules_from_executable host.windows score load_module parent
          host.declared s.modules).0) [
            | inr (reason, e) ↦ rw (e, load_forced_cpu) (cpu_load _ _ refl tt)
            | inl (done, e) ↦
                rw
                  (
                    e,
                    load_forced_cpu,
                    selects_cpu float from_utf8 native codec io cache_key_of score load_module host
                        pin s.cache_file s.clock,
                  )
                  (load_selected_cpu host.backend_init s _)
          ]

  load_located_cpu :
      (exe : Result (Option Directory) String) (s : LoadState codec.Bytes L W)
      → IsCpuLoad s (
          load_located float from_utf8 native codec io cache_key_of score load_module host pin exe
            cpu_only s)
  unfolding load_located eq_ignore_ascii_case
  load_located_cpu (err reason) s = cpu_load _ _ refl tt
  load_located_cpu (ok parent) s = load_forced_cpu_lem parent s

  -- Whatever the environment forces, the package holds and the machine has: a load under `CpuOnly`
  -- returns without a probe and without a look at the cached choice or a change to it, and an engine
  -- that it returns has the CPU requested, resolved and as its device, with no reason to be degraded.
  pub load_with_policy_cpu :
      (s : LoadState codec.Bytes L W)
      → IsCpuLoad s (
          load_with_policy float from_utf8 native codec io cache_key_of score load_module host pin
            cpu_only s)
  unfolding load_with_policy load_guarded
  load_with_policy_cpu s = elim (Bool-cases (not host.is_file)) [
    | inl missing ↦ rw (missing, load_with_policy) (cpu_load _ _ refl tt)
    | inr present ↦
        elim (Result-cases (verify_cached_digest host.path host.file_digest pin.sha256)) [
          | inr (reason, e) ↦ rw (present, load_with_policy, e) (cpu_load _ _ refl tt)
          | inl (verified, e) ↦
              rw (present, load_with_policy, e) (load_located_cpu host.current_exe s)
        ]
  ]
