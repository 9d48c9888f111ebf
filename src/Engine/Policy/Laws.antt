-- ===== src/Engine/Policy/Laws.antt =====
-- What a load leaves: an engine that is what it reports.
use julie_semantic_sidecar.Prelude.{
  ℕ, String, str_eq, true, false, arith, not, Bool-cases, ◌≡◌, refl, sym, ap, ◌∙◌, subst, inl, inr,
  List, Option, none, some, Result, ok, err, Result-cases,
}
use julie_semantic_sidecar.Prelude.Str.{to_ascii_lowercase}
use julie_semantic_sidecar.Sanitize.{trim}
use julie_semantic_sidecar.EngineTrait.{EngineError}
use julie_semantic_sidecar.Manifest.{ModelPin}
use julie_semantic_sidecar.Broker.Engine.{BackendPolicy}
use julie_semantic_sidecar.Backend.Selection.{
  cpu, BackendCandidate, selection, cpu_selection, degraded_to_cpu,
}
use julie_semantic_sidecar.Backend.Discovery.{Machine, cpu_candidate}
use julie_semantic_sidecar.Backend.Discovery.Laws.{discover_candidates_lem}
use julie_semantic_sidecar.Backend.Runtime.{RuntimeSelection}
use julie_semantic_sidecar.Backend.Cache.{CacheCodec, CacheIo}
use julie_semantic_sidecar.Backend.Select.{select_runtime_with, forced_cpu_runtime}
use julie_semantic_sidecar.Backend.Select.Laws.{select_runtime_with-IsChosen}
use julie_semantic_sidecar.Backend.Modules.{
  Directory, ModuleFile, ℤ, load_packaged_modules_from_executable,
  load_packaged_cpu_modules_from_executable,
}
use julie_semantic_sidecar.Engine.Lane.{Float}
use julie_semantic_sidecar.Engine.Devices.{runtime_devices}
use julie_semantic_sidecar.Engine.Load.{
  Native, final, fallback, Loaded, load_candidate, benchmark_candidate,
}
use julie_semantic_sidecar.Engine.Policy.{
  Host, LoadState, Answer, verify_cached_digest, load_fallback, load_final, load_forced_cpu,
  chosen_candidate, load_discovered, load_guarded, load_initialised, load_located, load_with_policy,
  discovered, load_selected, wanted_backend, is_forced_cpu,
}
use julie_semantic_sidecar.Engine.Policy.Decided.{
  IsConsistent, degraded_to_cpu-IsConsistent, Decided, chosen-Decided,
}
use julie_semantic_sidecar.Engine.Policy.Placed.{IsPlaced, Loads, load_candidate-Loads}

abbrev chosen_or :
    {A B : Type 0}
    → RuntimeSelection
    → Option (Result RuntimeSelection String × A × B)
    → RuntimeSelection
chosen_or r (some (ok s, a, b)) = s
chosen_or r (some (err reason, a, b)) = r
chosen_or r none = r

-- An answer has one choice.
answer-ok :
    {A B : Type 0} (r s : RuntimeSelection) (a a' : A) (b b' : B)
    → ◌≡◌ {A = Option (Result RuntimeSelection String × A × B)}
        (some (ok r, a, b))
        (some (ok s, a', b'))
    → r ≡ s
answer-ok r s a a' b b' e = ap (chosen_or r) e

-- Of an answer: the engine in it, if there is one, says of itself what is so.
module _ {F Ctx Batch L W : Type 0} (float : Float F) (from_utf8 : List ℕ → Result String String)
    (native : Native F Ctx Batch W) (codec : CacheCodec) (io : CacheIo)
    (cache_key_of : Machine → String) (score : ModuleFile → L → Result ℤ String × L)
    (load_module : ModuleFile → L → Result (Unit {0}) String × L) (host : Host)
    (pin : ModelPin) where
  abbrev Loading : Type 0
  Loading = LoadState codec.Bytes L W

  -- The choice that a load under a policy rests on: the CPU where that is what is wanted, and otherwise
  -- what `select_runtime_with` answers for the devices that were found, for the host's cache and clock.
  pub data Chooses (policy : BackendPolicy) (s : Loading) (runtime : RuntimeSelection)
      : Type 0 where
    chose_cpu :
        is_forced_cpu (wanted_backend policy host.forced_value) ≡ true
        → runtime ≡ forced_cpu_runtime
        → Chooses policy s runtime
    chose_device :
        (failures : List String) (file : Option codec.Bytes) (w : W)
        → is_forced_cpu (wanted_backend policy host.forced_value) ≡ false
        → select_runtime_with
            (benchmark_candidate float from_utf8 native pin)
            codec
            io
            cache_key_of
            (wanted_backend policy host.forced_value)
            (some (
              discovered float from_utf8 native codec io cache_key_of score load_module host pin
                failures))
            s.cache_file
            s.clock
          ≡ some (ok runtime, file, w)
        → Chooses policy s runtime

  -- The engine reports acceleration if and only if it reports a backend other than the CPU; and either
  -- it has the chosen selection, and llama.cpp loaded the model with the parameters of the chosen
  -- device, or the choice was not the CPU, and it has the CPU's, for a reason.
  pub data IsHonest (runtime : RuntimeSelection) (e : Loaded float from_utf8 native) : Type 0 where
    as_chosen :
        (candidate : BackendCandidate)
        → IsConsistent e.0.selection
        → e.0.selection ≡ runtime.selection
        → candidate.backend ≡ runtime.selection.resolved
        → candidate.device ≡ runtime.device
        → candidate.device_index ≡ runtime.device_index
        → IsPlaced float from_utf8 native pin final candidate e
        → IsHonest runtime e
    fallen_back :
        (reason : String)
        → IsConsistent e.0.selection
        → str_eq runtime.selection.resolved cpu ≡ false
        → e.0.selection ≡ degraded_to_cpu runtime.selection.resolved reason
        → IsPlaced float from_utf8 native pin fallback cpu_candidate e
        → IsHonest runtime e

  abbrev IsHonestIf : RuntimeSelection → Result (Loaded float from_utf8 native) EngineError → Type 0
  IsHonestIf runtime (ok e) = IsHonest runtime e
  IsHonestIf runtime (err e) = Unit

  Loads-IsHonestIf :
      (runtime : RuntimeSelection) (r : Result (Loaded float from_utf8 native) EngineError)
      → IsConsistent runtime.selection
      → Loads float from_utf8 native pin final
          (chosen_candidate float from_utf8 native codec io cache_key_of score load_module host pin
            runtime)
          runtime.selection
          r
      → IsHonestIf runtime r
  Loads-IsHonestIf runtime (err e) c h = tt
  Loads-IsHonestIf runtime (ok e) c (same, placed) =
      as_chosen _ (subst IsConsistent (sym same) c) same refl refl refl placed

  Loads-fallen_back :
      (runtime : RuntimeSelection) (reason : String)
      (r : Result (Loaded float from_utf8 native) EngineError)
      → str_eq runtime.selection.resolved cpu ≡ false
      → Loads float from_utf8 native pin fallback cpu_candidate
          (degraded_to_cpu runtime.selection.resolved reason)
          r
      → IsHonestIf runtime r
  Loads-fallen_back runtime reason (err e) off h = tt
  Loads-fallen_back runtime reason (ok e) off (same, placed) =
      fallen_back reason
        (subst IsConsistent (sym same)
          (degraded_to_cpu-IsConsistent runtime.selection.resolved reason))
        off same placed

  load_fallback-IsHonestIf :
      (runtime : RuntimeSelection) (error : EngineError)
      → str_eq runtime.selection.resolved cpu ≡ false
      → IsHonestIf runtime (
          load_fallback float from_utf8 native codec io cache_key_of score load_module host pin
            runtime error)
  unfolding load_fallback
  load_fallback-IsHonestIf runtime error off =
      Loads-fallen_back runtime _ _ off
        (load_candidate-Loads float from_utf8 native pin fallback cpu_candidate _ _)

  load_final-IsHonestIf :
      (runtime : RuntimeSelection) (file : Option codec.Bytes)
      → IsConsistent runtime.selection
      → IsHonestIf runtime
          (load_final float from_utf8 native codec io cache_key_of score load_module host pin
            runtime file).0
  unfolding load_final
  load_final-IsHonestIf runtime file c =
      let candidate =
        chosen_candidate float from_utf8 native codec io cache_key_of score load_module host pin
          runtime in
      let first =
        load_candidate float from_utf8 native final pin candidate runtime.selection
          runtime.capabilities in
      let loads =
        load_candidate-Loads float from_utf8 native pin final candidate runtime.selection
          runtime.capabilities in
      elim (Result-cases first) [
        | inl (e, h) ↦
            rw (h, load_final)
              (Loads-IsHonestIf runtime (ok e) c (
                subst (Loads float from_utf8 native pin final candidate runtime.selection) h loads))
        | inr (error, h) ↦ elim (Bool-cases (not (str_eq runtime.selection.resolved cpu))) [
          | inl off ↦
              rw (h, load_final, off) (load_fallback-IsHonestIf runtime error (ground arith))
          | inr on ↦ rw (h, load_final, on) tt
        ]
      ]

  abbrev call :
      BackendPolicy
      → Loading
      → Answer float from_utf8 native codec io cache_key_of score load_module host pin
  call policy s =
      load_with_policy float from_utf8 native codec io cache_key_of score load_module host pin
        policy s

  -- A load that returns, with an engine as chosen or fallen back, or with an error.
  pub data IsReturned (policy : BackendPolicy) (s : Loading)
      (r : Answer float from_utf8 native codec io cache_key_of score load_module host pin)
      : Type 0 where
    unloaded : (e : EngineError) (s' : Loading) → r ≡ some (err e, s') → IsReturned policy s r
    loaded :
        (engine : Loaded float from_utf8 native) (s' : Loading) (runtime : RuntimeSelection)
        → r ≡ some (ok engine, s')
        → Chooses policy s runtime
        → IsHonest runtime engine
        → IsReturned policy s r

  finished-IsReturned :
      (policy : BackendPolicy) (s s' : Loading) (runtime : RuntimeSelection)
      (answer : Result (Loaded float from_utf8 native) EngineError)
      → Chooses policy s runtime
      → IsHonestIf runtime answer
      → IsReturned policy s (some (answer, s'))
  finished-IsReturned policy s s' runtime (err e) choice h = unloaded e s' refl
  finished-IsReturned policy s s' runtime (ok engine) choice h =
      loaded engine s' runtime refl choice h

  -- Whatever a choice answers, it is one that the policy makes.
  abbrev AllChosen :
      BackendPolicy
      → Loading
      → Option (Result RuntimeSelection String × Option codec.Bytes × W)
      → Type 0
  AllChosen policy s r =
      (runtime : RuntimeSelection) (file : Option codec.Bytes) (w : W)
      → r ≡ some (ok runtime, file, w)
      → Chooses policy s runtime

  load_selected-IsReturned :
      (policy : BackendPolicy) (s : Loading) (init : Result (Unit {0}) String)
      (r : Option (Result RuntimeSelection String × Option codec.Bytes × W)) (l : L)
      → Decided r
      → AllChosen policy s r
      → IsReturned policy s (
          load_selected float from_utf8 native codec io cache_key_of score load_module host pin init
            r l)
  load_selected-IsReturned policy s init r l (err reason, file, w, e, fair) choice =
      rw (e) (unloaded _ _ refl)
  load_selected-IsReturned policy s (err reason) r l (ok runtime, file, w, e, fair) choice =
      rw (e) (unloaded _ _ refl)
  load_selected-IsReturned policy s (ok done) r l (ok runtime, file, w, e, fair) choice = rw (e) (
      finished-IsReturned policy s _ runtime _ (choice runtime file w e)
        (load_final-IsHonestIf runtime file fair))

  pub selects_cpu :
      (file : Option codec.Bytes) (w : W)
      → select_runtime_with
          (benchmark_candidate float from_utf8 native pin)
          codec
          io
          cache_key_of
          (some cpu)
          none
          file
          w
        ≡ some (ok forced_cpu_runtime, file, w)
  unfolding select_runtime_with to_ascii_lowercase trim
  selects_cpu file w = refl

  load_forced_cpu-IsReturned :
      (policy : BackendPolicy) (parent : Option Directory) (s : Loading)
      → is_forced_cpu (wanted_backend policy host.forced_value) ≡ true
      → IsReturned policy s (
          load_forced_cpu float from_utf8 native codec io cache_key_of score load_module host pin
            parent s)
  unfolding load_forced_cpu cpu_selection selection
  load_forced_cpu-IsReturned policy parent s pinned =
      elim (Result-cases
        (load_packaged_cpu_modules_from_executable host.windows score load_module parent
          host.declared s.modules).0) [
            | inr (reason, e) ↦ rw (e, load_forced_cpu) (unloaded _ _ refl)
            | inl (done, e) ↦
                rw (e, load_forced_cpu)
                  (load_selected-IsReturned policy s host.backend_init _ _
                    (
                      ok forced_cpu_runtime,
                      s.cache_file,
                      s.clock,
                      selects_cpu s.cache_file s.clock,
                      refl,
                    )
                    (λ runtime file w same. chose_cpu pinned (
                      answer-ok runtime forced_cpu_runtime file s.cache_file w s.clock
                        (sym same ∙ selects_cpu s.cache_file s.clock))))
          ]

  load_initialised-IsReturned :
      (policy : BackendPolicy) (init : Result (Unit {0}) String) (failures : List String)
      (s t : Loading)
      → is_forced_cpu (wanted_backend policy host.forced_value) ≡ false
      → (t.cache_file ≡ s.cache_file) × (t.clock ≡ s.clock)
      → IsReturned policy s (
          load_initialised float from_utf8 native codec io cache_key_of score load_module host pin
            init
            (wanted_backend policy host.forced_value)
            failures
            t)
  unfolding load_initialised
  load_initialised-IsReturned policy (err reason) failures s t free same = unloaded _ _ refl
  load_initialised-IsReturned policy (ok done) failures s t free (file, clock) =
      let probe = benchmark_candidate float from_utf8 native pin in
      let forced = wanted_backend policy host.forced_value in
      let d =
        discovered float from_utf8 native codec io cache_key_of score load_module host pin
          failures in
      let starts =
        (discover_candidates_lem host.declared
          (runtime_devices host.target host.tool_output host.listed_devices)).0 in
      let here_too =
        ap (λ f. select_runtime_with probe codec io cache_key_of forced (some d) f t.clock) file
        ∙ ap (λ w. select_runtime_with probe codec io cache_key_of forced (some d) s.cache_file w)
            clock in
      load_selected-IsReturned policy s (ok done) _ _
        (chosen-Decided probe codec io cache_key_of forced d t.cache_file t.clock _ (
          select_runtime_with-IsChosen probe codec io cache_key_of forced d cpu_candidate _
            t.cache_file t.clock starts))
        (λ runtime f w e. chose_device failures f w free (sym here_too ∙ e))

  load_discovered-IsReturned :
      (policy : BackendPolicy) (parent : Option Directory) (s : Loading)
      → is_forced_cpu (wanted_backend policy host.forced_value) ≡ false
      → IsReturned policy s (
          load_discovered float from_utf8 native codec io cache_key_of score load_module host pin
            (wanted_backend policy host.forced_value)
            parent
            s)
  unfolding load_discovered
  load_discovered-IsReturned policy parent s free =
      elim (Result-cases
        (load_packaged_modules_from_executable host.windows score load_module parent host.declared
          s.modules).0) [
            | inr (reason, e) ↦ rw (e, load_discovered) (unloaded _ _ refl)
            | inl (report, e) ↦
                rw (e, load_discovered)
                  (load_initialised-IsReturned policy host.backend_init report.accelerator_failures
                    s _ free (refl, refl))
          ]

  load_located-IsReturned :
      (exe : Result (Option Directory) String) (policy : BackendPolicy) (s : Loading)
      → IsReturned policy s (
          load_located float from_utf8 native codec io cache_key_of score load_module host pin exe
            policy s)
  unfolding load_located
  load_located-IsReturned (err reason) policy s = unloaded _ _ refl
  load_located-IsReturned (ok parent) policy s =
      let forced = wanted_backend policy host.forced_value in
      elim (Bool-cases (is_forced_cpu forced)) [
        | inl pinned ↦ rw (pinned, load_located) (load_forced_cpu-IsReturned policy parent s pinned)
        | inr free ↦ rw (free, load_located) (load_discovered-IsReturned policy parent s free)
      ]

  -- Under every policy and whatever the host, the cache file, the native modules and llama.cpp answer,
  -- a load returns, with an error or with an engine; it never panics for want of a candidate. The
  -- choice behind an engine is the CPU where the policy or the environment wants that, and what
  -- `select_runtime_with` answers otherwise. The engine has that selection, and llama.cpp loaded its
  -- model with the parameters of the chosen device: that device named and the layers left to llama.cpp,
  -- or, where it is the CPU, with no device named and no layer offloaded. Or the choice was not the CPU,
  -- and the engine reports a fallback from it and has its model on the CPU in this way. Either
  -- way it reports acceleration if and only if the backend that it reports is not the CPU.
  pub load_with_policy-IsReturned :
      (policy : BackendPolicy) (s : Loading) → IsReturned policy s (call policy s)
  unfolding load_with_policy load_guarded
  load_with_policy-IsReturned policy s = elim (Bool-cases (not host.is_file)) [
    | inl missing ↦ rw (missing, load_with_policy) (unloaded _ _ refl)
    | inr present ↦
        elim (Result-cases (verify_cached_digest host.path host.file_digest pin.sha256)) [
          | inr (reason, e) ↦ rw (present, load_with_policy, e) (unloaded _ _ refl)
          | inl (verified, e) ↦
              rw (present, load_with_policy, e) (load_located-IsReturned host.current_exe policy s)
        ]
  ]
