-- ===== src/Costing/Grid.antt =====
-- costing/scenario_grid.py: the table of both paths over volumes, profiles, fleets and qualities.
-- Amounts stay exact; the table prints them as texts. The keys of a dictionary are unique.
pub mod Rows
pub mod Totals
pub mod Cells
pub mod Table
mod Examples
use ai_inference_cost_optimi.Prelude.{
  ℕ, zero, suc, ◌+◌, ◌-◌, ◌*◌, String, Bool, true, false, not, ◌||◌, Option, none, some, List, [],
  ◌∷◌, ◌++◌, eqb, ltb, length, all, any, if◌then◌else◌, map,
}
use ai_inference_cost_optimi.Prelude.Equality.{◌==◌, string_eq, elem}
use ai_inference_cost_optimi.Prelude.Dict.{Dict, get, keys}
use ai_inference_cost_optimi.Prelude.Result.{Result, ok, err, ◌>>=◌, ◌>>◌, raise_if, check_all}
use ai_inference_cost_optimi.Decimal.{
  Decimal, zero_decimal, decimal, whole, ◌+ᵈ◌, ◌*ᵈ◌, over, less, sum_from,
}
use ai_inference_cost_optimi.Config.Pricing.{million}
use ai_inference_cost_optimi.Costing.Rates.{
  monthly_cost, Sensitivity, low, typical, high, CostConfig,
}
use ai_inference_cost_optimi.Costing.Capacity.{CapacityError, required_replicas}

-- A difference of quality in points of a hundredth: `negsuc n` is -(n + 1).
pub data ℤ : Type 0 where
  pos : ℕ → ℤ
  negsuc : ℕ → ℤ

pub record TokenProfile : Type 0 where
  pub input_tokens : ℕ
  pub output_tokens : ℕ

pub record UtilizationTier : Type 0 where
  pub requests_per_replica_month : ℕ
  pub replica_hours_per_month : Decimal

pub record ScenarioGridConfig : Type 0 where
  pub monthly_requests : List ℕ
  pub token_profiles : Dict TokenProfile
  pub utilization_tiers : Dict UtilizationTier
  pub quality_sensitivity_points : List ℤ

pub data GridError : Type 0 where
  grid_field : String → GridError
  volume_not_positive : GridError
  tiers_not_three : GridError
  no_measured_point : GridError

abbrev pub is_measured : ℤ → Bool
is_measured (pos zero) = true
is_measured _ = false

-- The fields of `UtilizationTier`.
tier_fields : String × UtilizationTier → Result GridError Unit
tier_fields (name, tier) = do
  raise_if (eqb tier.requests_per_replica_month 0) (grid_field "requests_per_replica_month")
  raise_if (eqb tier.replica_hours_per_month.numerator 0) (grid_field "replica_hours_per_month")

abbrev pub is_zero : ℕ → Bool
is_zero n = eqb n 0

-- The bounds on the tiers and on the lengths, and `ScenarioGridConfig.required_grid_shape`.
unfoldable pub validate_grid : ScenarioGridConfig → Result GridError ScenarioGridConfig
unfolding tier_fields
validate_grid g = do
  check_all tier_fields g.utilization_tiers
  raise_if (ltb (length g.monthly_requests) 2) (grid_field "monthly_requests")
  raise_if (ltb (length g.token_profiles) 2) (grid_field "token_profiles")
  raise_if (ltb (length g.quality_sensitivity_points) 3) (grid_field "quality_sensitivity_points")
  raise_if (any is_zero g.monthly_requests) volume_not_positive
  raise_if
      (not (eqb (length g.utilization_tiers) 3)
        || not
            (all (λ name. elem name (keys g.utilization_tiers)) ("low" ∷ "typical" ∷ "high" ∷ [])))
      tiers_not_three
  raise_if (not (any is_measured g.quality_sensitivity_points)) no_measured_point
  ok g

-- `max(0, rate + points / 100)`
shifted : Decimal → ℤ → Decimal
shifted rate (pos n) = rate +ᵈ over (whole n) 100
shifted rate (negsuc n) =
    decimal (rate.numerator * 100 - suc n * rate.denominator) (rate.denominator * 100)

-- `min(1, max(0, rate + points / 100))`
pub clamped : Decimal → ℤ → Decimal
unfolding shifted
clamped rate points = let x = shifted rate points in if less (whole 1) x then whole 1 else x

pub record QualityCase : Type 0 where
  pub path : String
  pub points : ℤ
  pub managed_quality : Decimal
  pub private_quality : Decimal

-- One round of the loop over the points: the measured rates, or a shift of either.
unfoldable pub point_cases : Decimal → Decimal → ℤ → List QualityCase
point_cases m p points =
    if is_measured points
    then record { path = "measured"; points = points; managed_quality = m; private_quality = p }
      ∷ []
    else record {
      path = "managed";
      points = points;
      managed_quality = clamped m points;
      private_quality = p;
    }
      ∷ record {
        path = "private";
        points = points;
        managed_quality = m;
        private_quality = clamped p points;
      }
      ∷ []

unfoldable pub quality_cases : Decimal → Decimal → List ℤ → List QualityCase
unfolding point_cases
quality_cases m p [] = []
quality_cases m p (points ∷ rest) = point_cases m p points ++ quality_cases m p rest

pub data LowerPath : Type 0 where
  indeterminate lower_managed lower_private equal : LowerPath

pub record GridRow : Type 0 where
  pub sensitivity : Option Sensitivity
  pub monthly_requests : ℕ
  pub token_profile : String
  pub utilization_tier : String
  pub quality_case : QualityCase
  pub replicas : ℕ
  pub managed_total : Decimal
  pub private_total : Decimal
  pub components : Option (List Decimal)
  pub managed_per_million : Option Decimal
  pub private_per_million : Option Decimal
  pub managed_per_correct : Option Decimal
  pub private_per_correct : Option Decimal
  pub lower_cost_path : LowerPath

-- `a / b` for a `b` that is not 0
ratio : Decimal → Decimal → Decimal
ratio a b = decimal (a.numerator * b.denominator) (a.denominator * b.numerator)

-- `total / correct if correct else None`
unfoldable pub per_correct : Decimal → Decimal → Option Decimal
unfolding ratio
per_correct total correct = if eqb correct.numerator 0 then none else some (ratio total correct)

unfoldable pub lower_path : Option Decimal → Option Decimal → LowerPath
lower_path none private = indeterminate
lower_path (some m) none = indeterminate
lower_path (some m) (some p) =
    if less m p then lower_managed else if less p m then lower_private else equal

-- `total * 10**6 / tokens if tokens else None`
pub per_million : Decimal → ℕ → Option Decimal
per_million total tokens =
    if eqb tokens 0 then none else some (over (total *ᵈ whole million) tokens)

-- The values of `components`, in the order of its keys.
unfoldable pub platform_components : CostConfig → Decimal → Sensitivity → List Decimal
platform_components config hours sensitivity =
    let shared = config.shared in
    (shared.gateway_hourly_usd *ᵈ hours)
    ∷ (shared.network_nat_hourly_usd *ᵈ hours)
    ∷ (shared.control_plane_hourly_usd *ᵈ hours)
    ∷ (shared.shared_storage_hourly_usd *ᵈ hours)
    ∷ (shared.observability_hourly_usd *ᵈ hours)
    ∷ monthly_cost (config.operations sensitivity)
    ∷ []
