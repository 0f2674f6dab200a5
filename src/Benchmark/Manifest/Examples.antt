-- ===== src/Benchmark/Manifest/Examples.antt =====
-- benchmark/manifest.py: a publishable hybrid run, and one whose own cell carries no traffic.
use ai_inference_cost_optimi.Prelude.{◌≡◌, refl, inl, inr, true, none, some, [], ◌∷◌}
use ai_inference_cost_optimi.Prelude.Equality.{elem, string_eq}
use ai_inference_cost_optimi.Prelude.Result.{ok, err, check_all}
use ai_inference_cost_optimi.Decimal.{decimal}
use ai_inference_cost_optimi.Models.Enums.{premium}
use ai_inference_cost_optimi.Benchmark.Scenario.{
  BenchmarkScenario, cell_name, slo_cells_used, validate_evidence_shape,
}
use ai_inference_cost_optimi.Benchmark.Measure.Examples.{sample_scenario}
use ai_inference_cost_optimi.Benchmark.Slo.{SloTarget, SloDocument, require_cell, validate_slo}
use ai_inference_cost_optimi.Benchmark.Manifest.{
  RepositoryState, cell_key_error, Placement, Deployment, build_manifest,
}
use ai_inference_cost_optimi.Benchmark.Manifest.Gates.{IsPublishable}
use ai_inference_cost_optimi.Benchmark.Manifest.Publishable.{build_manifest-IsPublishable}
use ai_inference_cost_optimi.Benchmark.Manifest.Outcome.{Outcome, build_manifest-Outcome}

abbrev loose : SloTarget
loose = record {
  p95_ttft_ms = 2000;
  p95_e2e_ms = 9000;
  max_error_rate = decimal 1 100;
  min_quality_rate = none;
}

abbrev sample_slo : SloDocument
sample_slo = record { cells = ("WL-03/balanced", loose) ∷ ("WL-03/economy", loose) ∷ [] }

sample_slo_valid : validate_slo sample_slo ≡ ok sample_slo
unfolding validate_slo check_all
sample_slo_valid = refl

abbrev sample_repository : RepositoryState
sample_repository = record { sha = "0f3a"; dirty = true }

abbrev sample_placement : Placement
sample_placement = record {
  location = some "eks";
  node = some "ip-10-0-0-7";
  workload_kind = some "job";
}

abbrev sample_deployment : Deployment
sample_deployment = record { gpu_count = 1; autoscaling = none }

sample_manifest :
    build_manifest sample_scenario sample_repository "9b1c" sample_slo true sample_placement
      (some sample_deployment)
    ≡ ok loose
unfolding build_manifest slo_cells_used cell_name
sample_manifest = refl

build_manifest-IsPublishable_example :
    IsPublishable sample_scenario sample_repository "9b1c" sample_slo true sample_placement
      (some sample_deployment)
    × (elem sample_scenario.slo_cell (slo_cells_used sample_scenario) ≡ true)
    × (require_cell sample_slo sample_scenario.slo_cell ≡ some loose)
build_manifest-IsPublishable_example =
    build_manifest-IsPublishable sample_scenario sample_repository "9b1c" sample_slo true
      sample_placement (some sample_deployment) refl sample_manifest

-- The scenario's own tier is not one of its mix.
abbrev other_scenario : BenchmarkScenario
other_scenario = record sample_scenario { quality_tier = premium; slo_cell = "WL-03/premium" }

other_scenario_valid : validate_evidence_shape other_scenario ≡ ok other_scenario
unfolding validate_evidence_shape check_all
other_scenario_valid = refl

other_scenario-IsPublishable :
    IsPublishable other_scenario sample_repository "9b1c" sample_slo true sample_placement
      (some sample_deployment)
unfolding slo_cells_used cell_name
other_scenario-IsPublishable = record {
  checked = λ e. cc;
  cells = ((loose, refl), ((loose, refl), tt));
  clean = inr refl;
  known = λ e. cc;
  location = ("eks", refl, (λ e. cc), (λ e. cc));
  node = ("ip-10-0-0-7", refl, (λ e. cc), (λ e. cc));
  kind = ("job", refl, (λ e. cc), (λ e. cc));
  deployed = (sample_deployment, refl, inl (λ e. cc));
}

build_manifest-Outcome_example : Outcome other_scenario sample_slo (
    build_manifest other_scenario sample_repository "9b1c" sample_slo true sample_placement
      (some sample_deployment))
build_manifest-Outcome_example =
    build_manifest-Outcome other_scenario sample_repository "9b1c" sample_slo true sample_placement
      (some sample_deployment) other_scenario_valid other_scenario-IsPublishable

other_key_error :
    build_manifest other_scenario sample_repository "9b1c" sample_slo true sample_placement
      (some sample_deployment)
    ≡ err (cell_key_error "WL-03/premium")
unfolding build_manifest slo_cells_used cell_name
other_key_error = refl
