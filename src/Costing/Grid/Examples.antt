-- ===== src/Costing/Grid/Examples.antt =====
-- costing/scenario_grid.py: a table of two volumes, two profiles and three fleets.
use ai_inference_cost_optimi.Prelude.{ℕ, ◌*◌, ◌≡◌, refl, List, [], ◌∷◌, length}
use ai_inference_cost_optimi.Prelude.Result.{ok, check_all}
use ai_inference_cost_optimi.Decimal.{decimal, whole}
use ai_inference_cost_optimi.Costing.Engine.Examples.{sample_cost}
use ai_inference_cost_optimi.Costing.Grid.{
  quality_cases, pos, negsuc, ScenarioGridConfig, UtilizationTier, GridRow, validate_grid,
}
use ai_inference_cost_optimi.Costing.Grid.Rows.{GridPrices, build_scenario_grid}
use ai_inference_cost_optimi.Costing.Grid.Cells.{cells, Pairs, IsRow}
use ai_inference_cost_optimi.Costing.Grid.Table.{case_count, build_scenario_grid-IsRow}

abbrev fleet : ℕ → UtilizationTier
fleet n = record { requests_per_replica_month = n; replica_hours_per_month = whole 720 }

abbrev sample_grid : ScenarioGridConfig
sample_grid = record {
  monthly_requests = 1000 ∷ 50_000 ∷ [];
  token_profiles =
      ("short", record { input_tokens = 200; output_tokens = 50 })
      ∷ ("long", record { input_tokens = 4000; output_tokens = 800 })
      ∷ [];
  utilization_tiers =
      ("low", fleet 10_000) ∷ ("typical", fleet 40_000) ∷ ("high", fleet 90_000) ∷ [];
  quality_sensitivity_points = negsuc 4 ∷ pos 0 ∷ pos 5 ∷ [];
}

sample_grid_valid : validate_grid sample_grid ≡ ok sample_grid
unfolding validate_grid check_all
sample_grid_valid = refl

abbrev sample_prices : GridPrices
sample_prices = record {
  managed_input_per_1m = whole 3;
  managed_output_per_1m = whole 15;
  managed_quality_rate = decimal 9 10;
  private_quality_rate = decimal 8 10;
}

build_scenario_grid-IsRow_example :
    (rows : List GridRow) × (build_scenario_grid sample_cost sample_grid sample_prices ≡ ok rows)
    × (length rows ≡ 2 * (2 * (3 * (case_count sample_grid.quality_sensitivity_points * 4))))
    × Pairs
        (IsRow sample_cost sample_prices)
        (cells sample_grid.monthly_requests sample_grid.token_profiles sample_grid.utilization_tiers
          (quality_cases sample_prices.managed_quality_rate sample_prices.private_quality_rate
            sample_grid.quality_sensitivity_points))
        rows
build_scenario_grid-IsRow_example =
    build_scenario_grid-IsRow sample_cost sample_grid sample_prices sample_grid_valid
