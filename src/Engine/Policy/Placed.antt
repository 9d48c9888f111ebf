-- ===== src/Engine/Policy/Placed.antt =====
-- What llama.cpp is told to load for a candidate.
use julie_semantic_sidecar.Prelude.{
  ℕ, String, str_eq, Bool, true, false, is_empty, if◌then◌else◌, Bool-cases, ◌≡◌, refl, subst, inl,
  inr, List, [], none, some, Result, ok, err, ◌>>=◌, Result-cases, map_err,
}
use julie_semantic_sidecar.EngineTrait.{EngineError, engine_error}
use julie_semantic_sidecar.Manifest.{ModelPin}
use julie_semantic_sidecar.Health.{BackendCapabilities}
use julie_semantic_sidecar.Backend.Selection.{cpu, BackendCandidate, Selection}
use julie_semantic_sidecar.Engine.Lane.{Float}
use julie_semantic_sidecar.Engine.Load.{
  Attempt, Native, Loaded, ModelParams, model_params_for_candidate, measure_special_token_overhead,
  load_candidate, listed, placement_for_candidate, reserve_of,
}

-- The parameters of a load on a candidate: on the CPU no layer is offloaded and no device is named;
-- otherwise the number of layers is left to llama.cpp, and the candidate's device is named.
abbrev pub AsReported : BackendCandidate → ModelParams → Type 0
AsReported candidate params =
    (params.n_gpu_layers ≡ (if str_eq candidate.backend cpu then some 0 else none))
    × (params.devices
        ≡ (if str_eq candidate.backend cpu then [] else listed candidate.device_index))

module _ {F Ctx Batch W : Type 0} (float : Float F) (from_utf8 : List ℕ → Result String String)
    (native : Native F Ctx Batch W) (pin : ModelPin) where
  abbrev AsReportedIf : BackendCandidate → Result ModelParams EngineError → Type 0
  AsReportedIf candidate (ok params) = AsReported candidate params
  AsReportedIf candidate (err e) = Unit

  either_way :
      (candidate : BackendCandidate) (b : Bool) (r : Result (Unit {0}) String)
      (params : ModelParams)
      → AsReported candidate params
      → AsReportedIf candidate (
          if b then ok params else (map_err (engine_error "BackendPlacement") r >>= λ _. ok params))
  either_way candidate true r params h = h
  either_way candidate false (ok taken) params h = h
  either_way candidate false (err reason) params h = tt

  model_params-AsReportedIf :
      (candidate : BackendCandidate)
      → AsReportedIf candidate (model_params_for_candidate float from_utf8 native candidate)
  unfolding model_params_for_candidate placement_for_candidate
  model_params-AsReportedIf candidate = elim (Bool-cases (str_eq candidate.backend cpu)) [
    | inl on_cpu ↦
        rw (on_cpu, model_params_for_candidate, placement_for_candidate)
          (rw (on_cpu) refl, rw (on_cpu) refl)
    | inr off ↦
        rw (off, model_params_for_candidate, placement_for_candidate)
          (either_way candidate (is_empty (listed candidate.device_index))
            (native.with_devices (listed candidate.device_index))
            (record { n_gpu_layers = none; devices = listed candidate.device_index })
            (rw (off) refl, rw (off) refl))
  ]

  -- What llama.cpp was told to load, and that it loaded it.
  pub record IsPlaced (attempt : Attempt) (candidate : BackendCandidate)
      (e : Loaded float from_utf8 native) : Type 0 where
    pub params : ModelParams
    pub placed : AsReported candidate params
    pub loaded : native.load_from_file attempt params ≡ ok e.1
    pub device : e.0.device ≡ candidate.device

  -- An engine, if there is one, that was placed on the candidate and has the selection.
  abbrev pub Loads :
      Attempt
      → BackendCandidate
      → Selection
      → Result (Loaded float from_utf8 native) EngineError
      → Type 0
  Loads attempt candidate chosen (err e) = Unit
  Loads attempt candidate chosen (ok e) = (e.0.selection ≡ chosen) × IsPlaced attempt candidate e

  pub load_candidate-Loads :
      (attempt : Attempt) (candidate : BackendCandidate) (chosen : Selection)
      (capabilities : BackendCapabilities)
      → Loads attempt candidate chosen
          (load_candidate float from_utf8 native attempt pin candidate chosen capabilities)
  unfolding load_candidate
  load_candidate-Loads attempt candidate chosen capabilities =
      elim (Result-cases (model_params_for_candidate float from_utf8 native candidate)) [
        | inr (x, bad) ↦ rw (bad, load_candidate) tt
        | inl (params, placed) ↦ elim (Result-cases (native.load_from_file attempt params)) [
          | inr (x, bad) ↦ rw (placed, bad, load_candidate) tt
          | inl (model, loaded) ↦
              elim (Result-cases (reserve_of float from_utf8 native pin.eos_marker model)) [
                | inr (x, bad) ↦ rw (placed, loaded, bad, load_candidate) tt
                | inl (reserve, e) ↦
                    elim (Result-cases
                      (measure_special_token_overhead float from_utf8 native model)) [
                        | inr (x, bad) ↦ rw (placed, loaded, e, bad, load_candidate) tt
                        | inl (overhead, e') ↦
                            rw (placed, loaded, e, e', load_candidate)
                              (
                                refl,
                                record {
                                  params = params;
                                  placed =
                                      subst (AsReportedIf candidate) placed
                                        (model_params-AsReportedIf candidate);
                                  loaded = loaded;
                                  device = refl;
                                },
                              )
                      ]
              ]
        ]
      ]
