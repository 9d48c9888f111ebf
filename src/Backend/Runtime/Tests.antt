-- ===== src/Backend/Runtime/Tests.antt =====
-- Three probes: a slow accelerator, a fast one, and one that fails.
use julie_semantic_sidecar.Prelude.{ℕ, String, ◌≡◌, refl, List, [], ◌∷◌, some, Result, ok, err}
use julie_semantic_sidecar.Health.{cpu_only}
use julie_semantic_sidecar.Backend.Runtime.{
  ProbeTiming, Measured, select_measured, choose, record_probes, record_probe, is_faster, total,
}
use julie_semantic_sidecar.Backend.Runtime.Fastest.{IsBest, select_measured-IsBest}

abbrev timing : ℕ → ℕ → ProbeTiming
timing one sixteen = record { batch_1 = one; batch_16 = sixteen }

abbrev probe : String → ℕ → Result ProbeTiming String → Measured
probe backend index answer = record {
  candidate = record { backend = backend; device = backend; device_index = some index };
  answer = answer;
}

abbrev probes : List Measured
probes =
    probe "vulkan" 0 (ok (timing 5 90))
    ∷ probe "cuda" 1 (ok (timing 4 40))
    ∷ probe "cuda" 2 (err "lost")
    ∷ []

fast_one : (select_measured (some "vulkan") cpu_only [] (timing 9 90) probes).device_index ≡ some 1
unfolding select_measured choose record_probes record_probe is_faster total
fast_one = refl

select_measured-IsBest_example :
    IsBest probes (timing 9 90) (select_measured (some "vulkan") cpu_only [] (timing 9 90) probes)
select_measured-IsBest_example =
    select_measured-IsBest (some "vulkan") cpu_only [] (timing 9 90) probes
