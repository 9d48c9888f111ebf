-- ===== src/Broker/Loader/Laws.antt =====
-- The broker with the engine that its own loader loads: its check on the policy never fires.
use julie_semantic_sidecar.Prelude.{
  ℕ, String, false, Bool-cases, inl, inr, str_eq, ◌≡◌, refl, ap, List, none, some, Result, ok, err,
}
use julie_semantic_sidecar.Json.{Serde}
use julie_semantic_sidecar.EngineTrait.{Role, EmbedOutput, EngineError, EmbedEngine}
use julie_semantic_sidecar.Manifest.{ModelPin}
use julie_semantic_sidecar.Broker.Engine.{
  BackendPolicy, cpu_only, BrokerEngineState, loaded, load_with, take_over,
}
use julie_semantic_sidecar.Backend.Selection.{Selection, selection, cpu_selection}
use julie_semantic_sidecar.Backend.Discovery.{Machine}
use julie_semantic_sidecar.Backend.Cache.{CacheCodec, CacheIo}
use julie_semantic_sidecar.Backend.Modules.{ModuleFile, ℤ}
use julie_semantic_sidecar.Engine.Lane.{Float}
use julie_semantic_sidecar.Engine.Load.{Native, Loaded}
use julie_semantic_sidecar.EngineTrait.{unready}
use julie_semantic_sidecar.Engine.Policy.{Host, LoadState, Engine, llama_engine}
use julie_semantic_sidecar.Broker.Loader.{LoadedEngine, loaded_engine, tolerated, loader}
use julie_semantic_sidecar.Engine.Policy.Cpu.{OnCpu, cpu_load, load_with_policy_cpu}

module _ {E L : Type 0} where
  -- The broker's state after a load for a holder of no lease.
  abbrev pub started : Result E EngineError × L → Result (BrokerEngineState E L) EngineError
  started (err e, loader) = err e
  started (ok inner, loader) = ok (record {
    inner = some inner;
    accelerator_lease = false;
    loader = some loader;
    degraded_reason = none;
    terminal_failure = none;
  })

  -- The answer to a request on which an accelerator was exhausted.
  abbrev pub taken :
      {F N : Type 0}
      → EmbedEngine F N E
      → BrokerEngineState E L
      → Result E EngineError
      → List String
      → Role
      → Result (EmbedOutput F) EngineError × BrokerEngineState E L
  taken engine s (err e) texts role = (err e, record s { terminal_failure = some e })
  taken engine s (ok cpu) texts role =
      let (answer, cpu') = engine.embed cpu texts role in (answer, record s { inner = some cpu' })

module _ {F N Ctx Batch L W : Type 0} (serde : Serde F N) (sidecar_version : String)
    (float : Float F) (from_utf8 : List ℕ → Result String String) (native : Native F Ctx Batch W)
    (codec : CacheCodec) (io : CacheIo) (cache_key_of : Machine → String)
    (score : ModuleFile → L → Result ℤ String × L)
    (load_module : ModuleFile → L → Result (Unit {0}) String × L) (host : Host)
    (pin : ModelPin) where
  abbrev pub engine : EmbedEngine F N (
      LoadedEngine (Engine float from_utf8 native codec io cache_key_of score load_module host pin))
  engine = loaded_engine (
      llama_engine float from_utf8 native codec io cache_key_of score load_module host pin serde
        sidecar_version)

  abbrev pub call :
      BackendPolicy
      → LoadState codec.Bytes L W
      → Result
          (LoadedEngine
            (Engine float from_utf8 native codec io cache_key_of score load_module host pin))
          EngineError
        × LoadState codec.Bytes L W
  call = loader float from_utf8 native codec io cache_key_of score load_module host pin

  -- An answer of the loader whose engine, if there is one, is not accelerated.
  abbrev IsSlow :
      Result
        (LoadedEngine
          (Engine float from_utf8 native codec io cache_key_of score load_module host pin))
        EngineError
      → Type 0
  IsSlow (ok e) = engine.is_accelerated e ≡ false
  IsSlow (err e) = Unit

  tolerated-IsSlow :
      (answer : Result (Loaded float from_utf8 native) EngineError)
      → OnCpu float from_utf8 native codec io cache_key_of score load_module host pin answer
      → IsSlow (tolerated answer)
  unfolding tolerated loaded_engine llama_engine unready cpu_selection selection
  tolerated-IsSlow (ok e) (same, device) = ap (λ (t : Selection). t.accelerated) same
  tolerated-IsSlow (err e) on = elim (Bool-cases (str_eq e.kind "ModelNotPrepared")) [
    | inl not_ready ↦ rw (not_ready, tolerated) refl
    | inr failed ↦ rw (failed, tolerated) tt
  ]

  loaded_lem :
      (answer : Result
        (LoadedEngine
          (Engine float from_utf8 native codec io cache_key_of score load_module host pin))
        EngineError)
      (s' s : LoadState codec.Bytes L W)
      (st : BrokerEngineState
        (LoadedEngine (Loaded float from_utf8 native))
        (LoadState codec.Bytes L W))
      (texts : List String) (role : Role)
      → IsSlow answer
      → call cpu_only s ≡ (answer, s')
      → (load_with engine call false s ≡ started (call cpu_only s))
        × (take_over engine call st (call cpu_only s).0 texts role
            ≡ taken engine st (call cpu_only s).0 texts role)
  unfolding load_with loaded take_over
  loaded_lem (err e) s' s st texts role on h = (rw (h, load_with) refl, rw (h) refl)
  loaded_lem (ok e) s' s st texts role slow h =
      (rw (h, load_with, loaded, slow, h) refl, rw (h, take_over, slow) refl)

  -- Where the loader is the program's own: a broker without the lease starts with whatever engine the
  -- loader returns under `CpuOnly`, be it one that is not ready, or with the loader's error, and on an
  -- exhausted accelerator the engine that the loader returns takes the request over, or the loader's
  -- error is kept. Neither time does the check that the engine is on the CPU refuse it.
  pub load_with_cpu :
      (s : LoadState codec.Bytes L W)
      (st : BrokerEngineState
        (LoadedEngine (Loaded float from_utf8 native))
        (LoadState codec.Bytes L W))
      (texts : List String) (role : Role)
      → (load_with engine call false s ≡ started (call cpu_only s))
        × (take_over engine call st (call cpu_only s).0 texts role
            ≡ taken engine st (call cpu_only s).0 texts role)
  unfolding loader
  load_with_cpu s st texts role =
      elim (load_with_policy_cpu float from_utf8 native codec io cache_key_of score load_module host
        pin s) [
          | cpu_load answer l e on ↦
              loaded_lem (tolerated answer) (record s { modules = l }) s st texts role
                (tolerated-IsSlow answer on) (rw (e, loader) refl)
        ]
