-- ===== src/Costing/Grid/Rows.antt =====
-- costing/scenario_grid.py: `build_scenario_grid`, loop by loop.
use ai_inference_cost_optimi.Prelude.{ℕ, ◌+◌, ◌*◌, String, Option, none, some, List, [], ◌∷◌, ◌++◌}
use ai_inference_cost_optimi.Prelude.Dict.{Dict}
use ai_inference_cost_optimi.Prelude.Result.{Result, ok, ◌>>=◌}
use ai_inference_cost_optimi.Decimal.{Decimal, zero_decimal, whole, ◌+ᵈ◌, ◌*ᵈ◌, over, sum_from}
use ai_inference_cost_optimi.Config.Pricing.{million}
use ai_inference_cost_optimi.Costing.Rates.{Sensitivity, low, typical, high, CostConfig}
use ai_inference_cost_optimi.Costing.Capacity.{CapacityError, required_replicas}
use ai_inference_cost_optimi.Costing.Grid.{
  TokenProfile, UtilizationTier, ScenarioGridConfig, QualityCase, quality_cases, GridRow,
  per_correct, lower_path, per_million, platform_components,
}

-- What the loops over volumes, profiles and tiers have fixed.
pub record GridPoint : Type 0 where
  pub volume : ℕ
  pub profile_name : String
  pub profile : TokenProfile
  pub tier_name : String
  pub tier : UtilizationTier
  pub replicas : ℕ
  pub managed_inference : Decimal
  pub private_inference : Decimal

-- `components`: what View B adds, and nothing in View A.
unfoldable pub components_of : CostConfig → Decimal → Option Sensitivity → Option (List Decimal)
components_of config hours none = none
components_of config hours (some level) = some (platform_components config hours level)

-- A path's total with the sum of the components.
unfoldable pub with_platform : Option (List Decimal) → Decimal → Decimal
with_platform none total = total
with_platform (some components) total = total +ᵈ sum_from zero_decimal components

-- The row of one view and sensitivity (`none` is View A).
unfoldable pub grid_row : CostConfig → GridPoint → QualityCase → Option Sensitivity → GridRow
unfolding components_of with_platform
grid_row config g c sensitivity =
    let components = components_of config g.tier.replica_hours_per_month sensitivity in
    let managed_total = with_platform components g.managed_inference in
    let private_total = with_platform components g.private_inference in
    let tokens = g.volume * (g.profile.input_tokens + g.profile.output_tokens) in
    let managed = per_correct managed_total (whole g.volume *ᵈ c.managed_quality) in
    let private = per_correct private_total (whole g.volume *ᵈ c.private_quality) in
    record {
      sensitivity = sensitivity;
      monthly_requests = g.volume;
      token_profile = g.profile_name;
      utilization_tier = g.tier_name;
      quality_case = c;
      replicas = g.replicas;
      managed_total = managed_total;
      private_total = private_total;
      components = components;
      managed_per_million = per_million managed_total tokens;
      private_per_million = per_million private_total tokens;
      managed_per_correct = managed;
      private_per_correct = private;
      lower_cost_path = lower_path managed private;
    }

-- The two loops over views and sensitivities.
unfoldable pub case_rows : CostConfig → GridPoint → QualityCase → List GridRow
unfolding grid_row
case_rows config g c =
    grid_row config g c none
    ∷ grid_row config g c (some low)
    ∷ grid_row config g c (some typical)
    ∷ grid_row config g c (some high)
    ∷ []

unfoldable pub cases_rows : CostConfig → GridPoint → List QualityCase → List GridRow
unfolding case_rows
cases_rows config g [] = []
cases_rows config g (c ∷ cases) = case_rows config g c ++ cases_rows config g cases

-- The prices and rates that the grid is built for.
pub record GridPrices : Type 0 where
  pub managed_input_per_1m : Decimal
  pub managed_output_per_1m : Decimal
  pub managed_quality_rate : Decimal
  pub private_quality_rate : Decimal

-- The managed cost of a month.
unfoldable pub month_of_managed : GridPrices → ℕ → TokenProfile → Decimal
month_of_managed prices volume profile =
    over
      (whole volume
        *ᵈ (whole profile.input_tokens *ᵈ prices.managed_input_per_1m
            +ᵈ whole profile.output_tokens *ᵈ prices.managed_output_per_1m))
      million

-- One round of the loop over the tiers.
unfoldable pub grid_point :
    CostConfig
    → GridPrices
    → ℕ
    → String
    → TokenProfile
    → String
    → UtilizationTier
    → Result CapacityError GridPoint
unfolding month_of_managed
grid_point config prices volume profile_name profile tier_name tier = do
  replicas ← required_replicas volume tier.requests_per_replica_month
  ok (record {
    volume = volume;
    profile_name = profile_name;
    profile = profile;
    tier_name = tier_name;
    tier = tier;
    replicas = replicas;
    managed_inference = month_of_managed prices volume profile;
    private_inference =
        whole replicas *ᵈ tier.replica_hours_per_month *ᵈ config.private.gpu_node_hourly_usd;
  })

module _ (config : CostConfig) (prices : GridPrices) (cases : List QualityCase) where
  unfoldable pub tiers_rows :
      ℕ → String → TokenProfile → Dict UtilizationTier → Result CapacityError (List GridRow)
  tiers_rows volume profile_name profile [] = ok []
  tiers_rows volume profile_name profile ((name, tier) ∷ tiers) = do
    point ← grid_point config prices volume profile_name profile name tier
    rest ← tiers_rows volume profile_name profile tiers
    ok (cases_rows config point cases ++ rest)

  unfoldable pub profiles_rows :
      Dict UtilizationTier → ℕ → Dict TokenProfile → Result CapacityError (List GridRow)
  profiles_rows tiers volume [] = ok []
  profiles_rows tiers volume ((name, profile) ∷ profiles) = do
    rows ← tiers_rows volume name profile tiers
    rest ← profiles_rows tiers volume profiles
    ok (rows ++ rest)

  unfoldable pub volumes_rows :
      Dict UtilizationTier → Dict TokenProfile → List ℕ → Result CapacityError (List GridRow)
  volumes_rows tiers profiles [] = ok []
  volumes_rows tiers profiles (volume ∷ volumes) = do
    rows ← profiles_rows tiers volume profiles
    rest ← volumes_rows tiers profiles volumes
    ok (rows ++ rest)

unfoldable pub build_scenario_grid :
    CostConfig → ScenarioGridConfig → GridPrices → Result CapacityError (List GridRow)
unfolding volumes_rows profiles_rows tiers_rows cases_rows grid_point
build_scenario_grid config grid prices =
    volumes_rows config prices
      (quality_cases prices.managed_quality_rate prices.private_quality_rate
        grid.quality_sensitivity_points)
      grid.utilization_tiers grid.token_profiles grid.monthly_requests
