-- ===== src/Costing/Engine/Examples.antt =====
-- costing/engine.py: a run of three requests.
use ai_inference_cost_optimi.Prelude.{
  String, ◌≡◌, true, Option, none, some, List, [], ◌∷◌, arith, All,
}
use ai_inference_cost_optimi.Decimal.{
  Decimal, zero_decimal, decimal, whole, IsProper, ◌+ᵈ◌, ◌*ᵈ◌, over, sum_from,
}
use ai_inference_cost_optimi.Models.Enums.{public, balanced, provider_reported}
use ai_inference_cost_optimi.Benchmark.Scenario.{classification}
use ai_inference_cost_optimi.Benchmark.Records.{BenchmarkRecord}
use ai_inference_cost_optimi.Costing.Rates.{
  monthly_cost, OperationsAllocation, typical, CostConfig, PrivateRunInputs,
}
use ai_inference_cost_optimi.Costing.Engine.{
  aggregate_managed, operations_cost, shared_platform_components, Counts, run_views,
}
use ai_inference_cost_optimi.Costing.Engine.Aggregate.{IsAggregate, aggregate_managed-IsAggregate}
use ai_inference_cost_optimi.Costing.Engine.Views.{run_views_additions}

abbrev pub served : String → Option Decimal → BenchmarkRecord
served provider cost = record {
  repeat_index = 1;
  workload = classification;
  dataset_item_id = "d1";
  data_class = public;
  quality_tier = balanced;
  route = some "default";
  provider = some provider;
  model_alias = "chat";
  started_at = 0;
  completed_at = 9;
  ttft = none;
  http_status = 200;
  finish_reason = some "stop";
  usage = record {
    input_tokens = some 100;
    visible_output_tokens = some 20;
    billed_input_tokens = some 110;
    billed_output_tokens = some 25;
    source = provider_reported;
  };
  error_class = none;
  fallback_count = 0;
  task_correct = some true;
  managed_inference_cost_usd = cost;
}

abbrev pub sample_records : List BenchmarkRecord
sample_records =
    served "managed-a" (some (decimal 1 100)) ∷ served "private" none ∷ served "managed-b" none ∷ []

abbrev flat_allocation : OperationsAllocation
flat_allocation = record {
  hours_per_month = whole 20;
  hourly_rate_usd = whole 90;
  allocation_fraction = decimal 1 4;
}

abbrev pub sample_cost : CostConfig
sample_cost = record {
  private = record {
    gpu_node_hourly_usd = whole 2;
    cpu_node_hourly_usd = decimal 1 10;
    model_storage_hourly_usd = decimal 1 100;
    model_transfer_per_gb_usd = decimal 9 100;
    node_lifecycle_hourly_usd = whole 0;
  };
  shared = record {
    gateway_hourly_usd = decimal 5 100;
    network_nat_hourly_usd = decimal 5 100;
    control_plane_hourly_usd = decimal 1 10;
    shared_storage_hourly_usd = decimal 1 100;
    observability_hourly_usd = decimal 2 100;
  };
  operations = λ sensitivity. flat_allocation;
}

abbrev sample_inputs : PrivateRunInputs
sample_inputs = record {
  gpu_node_billed_hours = whole 3;
  cpu_node_billed_hours = whole 3;
  model_storage_billed_hours = whole 3;
  model_transfer_gb = whole 16;
  node_lifecycle_billed_hours = whole 1;
  shared_platform_billed_hours = whole 3;
}

abbrev sample_counts : Counts
sample_counts = record {
  request_count = 3;
  correct_count = some 2;
  managed_token_count = some 135;
  private_token_count = none;
}

aggregate_managed-IsAggregate_example :
    IsAggregate zero_decimal 0 0 sample_records (aggregate_managed sample_records)
aggregate_managed-IsAggregate_example = aggregate_managed-IsAggregate sample_records

run_views_additions_example :
    let v = run_views sample_cost (whole 1) sample_inputs sample_counts in
    let platform = sum_from zero_decimal (v.view_b typical).platform_components_usd in
    ((v.view_b typical).views.managed.total_usd ≡ v.view_a.managed.total_usd +ᵈ platform)
    × ((v.view_b typical).views.private.total_usd ≡ v.view_a.private.total_usd +ᵈ platform)
run_views_additions_example =
    run_views_additions sample_cost (whole 1) sample_inputs sample_counts typical

sample-IsProper :
    All IsProper
      ((run_views sample_cost (whole 1) sample_inputs sample_counts).view_b
        typical).platform_components_usd
unfolding run_views operations_cost shared_platform_components monthly_cost ◌+ᵈ◌ ◌*ᵈ◌ over
sample-IsProper =
    (omega arith, (omega arith, (omega arith, (omega arith, (omega arith, (omega arith, tt))))))
