-- ===== src/Engine/Load.antt =====
-- `load_candidate` and `benchmark_candidate`: the model on one candidate, and how fast it embeds. What
-- llama.cpp answers is the parameter `Native`, with a clock whose state is `W`.
use julie_semantic_sidecar.Prelude.{
  ℕ, ◌-◌, String, str_eq, if◌then◌else◌, List, [], ◌∷◌, is_empty, Option, none, some, Result, ok,
  err, ◌>>=◌, ◌>>◌, map_err, length,
}
use julie_semantic_sidecar.EngineTrait.{document, EngineError, engine_error, display}
use julie_semantic_sidecar.Manifest.{ModelPin}
use julie_semantic_sidecar.Health.{BackendCapabilities, cpu_only}
use julie_semantic_sidecar.Backend.Selection.{cpu, BackendCandidate, Selection, selection}
use julie_semantic_sidecar.Backend.Runtime.{ProbeTiming}
use julie_semantic_sidecar.Engine.Llama.{always, never, Llama}
use julie_semantic_sidecar.Engine.Lane.{Float}
use julie_semantic_sidecar.Engine.Embed.{LlamaEngine, embed}

pub record ModelPlacement : Type 0 where
  pub n_gpu_layers : Option ℕ
  pub device_indexes : List ℕ

abbrev pub listed : Option ℕ → List ℕ
listed none = []
listed (some index) = index ∷ []

unfoldable pub placement_for_candidate : BackendCandidate → ModelPlacement
placement_for_candidate candidate =
    if str_eq candidate.backend cpu
    then record { n_gpu_layers = some 0; device_indexes = [] }
    else record { n_gpu_layers = none; device_indexes = listed candidate.device_index }

-- `BACKEND_PROBE_TEXTS`: the first text, and the others.
abbrev pub probe_first : String
probe_first = "FullRebuildPromotion"

abbrev probe_others : List String
probe_others =
    "WorkspaceIndexProvider.OpenReadOnly" ∷ "l2_normalize_vector" ∷ "IHostedService::StartAsync"
    ∷ "public sealed record LeadershipEligibility(bool CanClaim, string? Reason)"
    ∷ "pub fn cosine(a: &[f32], b: &[f32]) -> f32"
    ∷ "def slice_renormalize(vec, dims): return vec[:dims]"
    ∷ "CREATE VIRTUAL TABLE vectors USING vec0(embedding int8[512]);"
    ∷ "how does the indexer decide which process holds the write lock"
    ∷ "where do we atomically swap the rebuilt database over the live artifact"
    ∷ "A force scan extracts into a rebuild database and atomically promotes it."
    ∷ "Semantic retrieval is optional, local-first, and off by default."
    ∷ "## Restore the cache\n\nRun the download and verify stages."
    ∷ "# Tolerance policy\n\n| check | bar |\n|---|---|\n| cosine | >= 0.999 |"
    ∷ "```rust\nfn main() {}\n```" ∷ "该函数以原子方式将重建后的索引数据库替换为线上的工件文件。" ∷ []

-- A first run that is not counted, then one text, then all sixteen; the first failure ends it.
unfoldable pub run_fixed_probes_with :
    {W : Type 0} → (List String → W → Result ℕ String × W) → W → Result ProbeTiming String × W
run_fixed_probes_with probe w =
    let (warm, w₁) = probe (probe_first ∷ []) w in
    elim warm [
      | err reason ↦ (err reason, w₁)
      | ok warm_time ↦
          let (one, w₂) = probe (probe_first ∷ []) w₁ in
          elim one [
            | err reason ↦ (err reason, w₂)
            | ok batch_1 ↦
                let (sixteen, w₃) = probe (probe_first ∷ probe_others) w₂ in
                elim sixteen [
                  | err reason ↦ (err reason, w₃)
                  | ok batch_16 ↦ (ok (record { batch_1 = batch_1; batch_16 = batch_16 }), w₃)
                ]
          ]
    ]

-- `LlamaModelParams`, as far as they are set.
pub record ModelParams : Type 0 where
  pub n_gpu_layers : Option ℕ
  pub devices : List ℕ

-- What a load of the model is for: loads with the same parameters may end differently.
pub data Attempt : Type 0 where
  probing final fallback : Attempt

pub record Native (F Ctx Batch W : Type 0) : Type 0 where
  -- `with_devices`: whether llama.cpp takes these devices.
  pub with_devices : List ℕ → Result (Unit {0}) String
  pub load_from_file : Attempt → ModelParams → Result (Llama F Ctx Batch) String
  -- `Instant::now`, in nanoseconds.
  pub now : W → ℕ × W

-- An embedding ends (Engine/Embed/Laws), so that the first case does not arise.
abbrev pub ended : {A : Type 0} → Option (Result A EngineError) → Result A EngineError
ended none = err (engine_error "" "")
ended (some answer) = answer

module _ {F Ctx Batch W : Type 0} (float : Float F) (from_utf8 : List ℕ → Result String String)
    (native : Native F Ctx Batch W) where
  -- The engine with the loaded model.
  abbrev pub Loaded : Type 0
  Loaded = LlamaEngine × Llama F Ctx Batch

  unfoldable pub model_params_for_candidate : BackendCandidate → Result ModelParams EngineError
  unfolding placement_for_candidate
  model_params_for_candidate candidate =
      let placement = placement_for_candidate candidate in
      let params : ModelParams = record {
        n_gpu_layers = placement.n_gpu_layers;
        devices = placement.device_indexes;
      } in
      if is_empty placement.device_indexes then ok params else (do
        map_err (engine_error "BackendPlacement") (native.with_devices placement.device_indexes)
        ok params)

  unfoldable pub measure_special_token_overhead : Llama F Ctx Batch → Result ℕ EngineError
  measure_special_token_overhead model = do
    with_special ← map_err (engine_error "Tokenize") (model.str_to_token "probe" always)
    without_special ← map_err (engine_error "Tokenize") (model.str_to_token "probe" never)
    ok (length with_special - length without_special)

  abbrev pub reserve_of : Option String → Llama F Ctx Batch → Result ℕ EngineError
  reserve_of none model = ok 0
  reserve_of (some marker) model = do
    tokens ← map_err (engine_error "Tokenize") (model.str_to_token marker never)
    ok (length tokens)

  unfoldable pub load_candidate :
      Attempt
      → ModelPin
      → BackendCandidate
      → Selection
      → BackendCapabilities
      → Result Loaded EngineError
  unfolding model_params_for_candidate measure_special_token_overhead
  load_candidate attempt pin candidate chosen capabilities = do
    params ← model_params_for_candidate candidate
    model ← map_err (engine_error "ModelLoad") (native.load_from_file attempt params)
    eos_reserve ← reserve_of pin.eos_marker model
    overhead ← measure_special_token_overhead model
    ok (
      record {
        pin = pin;
        eos_reserve = eos_reserve;
        special_token_overhead = overhead;
        device = candidate.device;
        selection = chosen;
        capabilities = capabilities;
      },
      model,
    )

  -- The closure of `benchmark_candidate`.
  unfoldable pub timed_embed : Loaded → List String → W → Result ℕ String × W
  unfolding embed
  timed_embed loaded texts w =
      let (started, w₁) = native.now w in
      elim (ended (embed float loaded.1 from_utf8 loaded.0 texts document)) [
        | err e ↦ (err (display e), w₁)
        | ok out ↦ let (now, w₂) = native.now w₁ in (ok (now - started), w₂)
      ]

  unfoldable pub benchmark_candidate :
      ModelPin → BackendCandidate → W → Result ProbeTiming String × W
  unfolding load_candidate run_fixed_probes_with timed_embed selection display
  benchmark_candidate pin candidate w =
      elim (load_candidate probing pin candidate
        (selection candidate.backend candidate.backend none) cpu_only) [
          | err e ↦ (err (display e), w)
          | ok loaded ↦ run_fixed_probes_with (timed_embed loaded) w
        ]
