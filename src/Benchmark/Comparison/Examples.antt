-- ===== src/Benchmark/Comparison/Examples.antt =====
-- benchmark/comparison.py: a private run that costs less than a managed one, and the same two runs on a
-- laptop.
use ai_inference_cost_optimi.Prelude.{ℕ, ◌≡◌, ◌↔◌, refl, true, Option, some, [], ◌∷◌}
use ai_inference_cost_optimi.Decimal.{Decimal, decimal, whole}
use ai_inference_cost_optimi.Benchmark.Comparison.{
  Difference, Interval, Costs, delta_ci, ComparedManifest, RunMetadata, treatment_a, non_local,
  placement_is_non_local, costs_complete, direction_of, claimability,
}
use ai_inference_cost_optimi.Benchmark.Comparison.Supported.{IsSupported, claimability_iff}

abbrev on_cluster : ComparedManifest
on_cluster = record {
  publishable = true;
  dataset_sha256 = some "9b1c";
  slo_cell = some "WL-01/balanced";
  workload = some "classification";
  harness = some (record {
    location = some "eks";
    node = some "ip-10-0-0-7";
    workload_kind = some "job";
    network_path = some "pod -> service";
  });
}

abbrev on_laptop : ComparedManifest
on_laptop = record on_cluster {
  harness = some (record {
    location = some "local-mock";
    node = some "local";
    workload_kind = some "local-process";
    network_path = some "in-process";
  });
}

abbrev sample_run : RunMetadata
sample_run = record {
  sample_size = 300;
  successful_responses = 297;
  repeat_count = 3;
  declared_repeat_count = some 3;
}

abbrev sample_costs : Costs
sample_costs = record {
  view_a_a = some (decimal 9 1000);
  view_a_b = some (decimal 4 1000);
  view_b_a = some (decimal 12 1000);
  view_b_b = some (decimal 7 1000);
}

abbrev interval : ℕ → ℕ → Option (Interval Decimal)
interval low high = some (record { low = decimal low 1000; high = decimal high 1000 })

-- From 0 to 2 points.
abbrev no_worse : Interval Difference
no_worse = record {
  low = record { minuend = whole 0; subtrahend = whole 0 };
  high = record { minuend = decimal 2 100; subtrahend = whole 0 };
}

claimability_iff_example :
    ((claimability on_cluster on_cluster sample_run sample_run no_worse sample_costs
        (delta_ci (interval 8 10) (interval 3 5))).supported
      ≡ true)
    ↔ IsSupported on_cluster on_cluster sample_run sample_run no_worse sample_costs
        (interval 8 10)
        (interval 3 5)
claimability_iff_example =
    claimability_iff on_cluster on_cluster sample_run sample_run no_worse sample_costs
      (interval 8 10) (interval 3 5)

cheaper_on_cluster :
    (claimability on_cluster on_cluster sample_run sample_run no_worse sample_costs
      (delta_ci (interval 8 10) (interval 3 5))).supported
    ≡ true
unfolding claimability delta_ci costs_complete direction_of placement_is_non_local
cheaper_on_cluster = refl

local_on_laptop :
    (claimability on_laptop on_cluster sample_run sample_run no_worse sample_costs
      (delta_ci (interval 8 10) (interval 3 5))).failed
    ≡ non_local treatment_a ∷ []
unfolding claimability delta_ci costs_complete direction_of placement_is_non_local
local_on_laptop = refl

-- Three repeats with 67 successes each pass the gate.
abbrev small_repeats : RunMetadata
small_repeats = record sample_run { sample_size = 201; successful_responses = 201 }

small_repeats_pass :
    (claimability on_cluster on_cluster small_repeats small_repeats no_worse sample_costs
      (delta_ci (interval 8 10) (interval 3 5))).supported
    ≡ true
unfolding claimability delta_ci costs_complete direction_of placement_is_non_local
small_repeats_pass = refl
