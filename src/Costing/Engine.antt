-- ===== src/Costing/Engine.antt =====
-- costing/engine.py: the cost of a run, marginal (View A) and with the platform (View B).
pub mod Aggregate
pub mod Views
pub mod Examples
use ai_inference_cost_optimi.Prelude.{
  ℕ, suc, ◌+◌, ◌*◌, String, Bool, true, false, not, ◌||◌, Option, none, some, List, [], ◌∷◌, ◌++◌,
  ltb, eqb, if◌then◌else◌,
}
use text.Mathlib.Text.{starts_with}
use ai_inference_cost_optimi.Decimal.{Decimal, zero_decimal, whole, ◌+ᵈ◌, ◌*ᵈ◌, over, sum_from}
use ai_inference_cost_optimi.Config.Pricing.{million}
use ai_inference_cost_optimi.Benchmark.Records.{BenchmarkRecord}
use ai_inference_cost_optimi.Costing.Rates.{
  monthly_cost, Sensitivity, low, typical, high, CostConfig, PrivateRunInputs,
}

pub record ManagedCostAggregate : Type 0 where
  pub total_usd : Decimal
  pub priced_requests : ℕ
  pub missing_usage_requests : ℕ
  pub estimated : Bool

-- `record.provider is not None and record.provider.startswith(prefix)`
abbrev pub served_by : String → BenchmarkRecord → Bool
served_by prefix r = elim r.provider [ none ↦ false | some p ↦ starts_with p prefix ]

-- The loop of `aggregate_managed` over its three variables.
pub aggregate_from : Decimal → ℕ → ℕ → List BenchmarkRecord → ManagedCostAggregate
aggregate_from total priced missing [] = record {
  total_usd = total;
  priced_requests = priced;
  missing_usage_requests = missing;
  estimated = ltb 0 priced;
}
aggregate_from total priced missing (r ∷ records) = elim (served_by "managed" r) [
  | false ↦ aggregate_from total priced missing records
  | true ↦ elim r.managed_inference_cost_usd [
    | none ↦ aggregate_from total priced (missing + 1) records
    | some cost ↦ aggregate_from (total +ᵈ cost) (priced + 1) missing records
  ]
]

pub aggregate_managed : List BenchmarkRecord → ManagedCostAggregate
unfolding aggregate_from
aggregate_managed records = aggregate_from zero_decimal 0 0 records

pub private_view_a : CostConfig → PrivateRunInputs → Decimal
private_view_a config inputs =
    let rates = config.private in
    inputs.gpu_node_billed_hours *ᵈ rates.gpu_node_hourly_usd
    +ᵈ inputs.cpu_node_billed_hours *ᵈ rates.cpu_node_hourly_usd
    +ᵈ inputs.model_storage_billed_hours *ᵈ rates.model_storage_hourly_usd
    +ᵈ inputs.model_transfer_gb *ᵈ rates.model_transfer_per_gb_usd
    +ᵈ inputs.node_lifecycle_billed_hours *ᵈ rates.node_lifecycle_hourly_usd

-- The values of `shared_platform_components`, in the order of its keys.
pub shared_platform_components : CostConfig → Decimal → List Decimal
shared_platform_components config billed_hours =
    let shared = config.shared in
    (billed_hours *ᵈ shared.gateway_hourly_usd)
    ∷ (billed_hours *ᵈ shared.network_nat_hourly_usd)
    ∷ (billed_hours *ᵈ shared.control_plane_hourly_usd)
    ∷ (billed_hours *ᵈ shared.shared_storage_hourly_usd)
    ∷ (billed_hours *ᵈ shared.observability_hourly_usd)
    ∷ []

pub shared_platform_cost : CostConfig → Decimal → Decimal
shared_platform_cost config billed_hours =
    sum_from zero_decimal (shared_platform_components config billed_hours)

-- `_MONTH_HOURS`
abbrev pub month_hours : ℕ
month_hours = 30 * 24

pub operations_cost : CostConfig → Decimal → Sensitivity → Decimal
operations_cost config billed_hours sensitivity =
    over (monthly_cost (config.operations sensitivity) *ᵈ billed_hours) month_hours

pub record ViewCost : Type 0 where
  pub total_usd : Decimal
  pub cost_per_request_usd : Option Decimal
  pub cost_per_correct_task_usd : Option Decimal
  pub cost_per_1m_tokens_usd : Option Decimal
  pub token_count : Option ℕ
  pub token_definition : Option String

-- `total / n if n else None`
pub per : Decimal → Option ℕ → Option Decimal
per total none = none
per total (some n) = if eqb n 0 then none else some (over total n)

-- `token_count is not None and token_count > 0`
abbrev pub has_tokens : Option ℕ → Bool
has_tokens none = false
has_tokens (some n) = ltb 0 n

-- `CostEngine.view`
pub view : Decimal → ℕ → Option ℕ → Option ℕ → String → ViewCost
unfolding per
view total request_count correct_count token_count token_definition =
    let counted = has_tokens token_count in
    record {
      total_usd = total;
      cost_per_request_usd = per total (some request_count);
      cost_per_correct_task_usd = per total correct_count;
      cost_per_1m_tokens_usd = if counted then per (total *ᵈ whole million) token_count else none;
      token_count = if counted then token_count else none;
      token_definition = if counted then some token_definition else none;
    }

pub record ViewPair : Type 0 where
  pub managed : ViewCost
  pub private : ViewCost

-- A row of View B: the pair, what the platform adds by part, and the monthly allocation.
pub record SensitivityRow : Type 0 where
  pub views : ViewPair
  pub platform_components_usd : List Decimal
  pub operations_monthly_allocation_usd : Decimal

pub record RunViews : Type 0 where
  pub view_a : ViewPair
  pub view_b : Sensitivity → SensitivityRow

abbrev managed_token_definition : String
managed_token_definition = "provider-billed input + output tokens"

abbrev private_token_definition : String
private_token_definition = "normalized input + visible output tokens"

-- The arguments that `run_views` hands to every `view`.
pub record Counts : Type 0 where
  pub request_count : ℕ
  pub correct_count : Option ℕ
  pub managed_token_count : Option ℕ
  pub private_token_count : Option ℕ

pub view_pair : Counts → Decimal → Decimal → ViewPair
unfolding view
view_pair n managed_total private_total = record {
  managed =
      view managed_total n.request_count n.correct_count n.managed_token_count
        managed_token_definition;
  private =
      view private_total n.request_count n.correct_count n.private_token_count
        private_token_definition;
}

-- One round of the loop over the sensitivities.
pub sensitivity_row :
    CostConfig → Decimal → PrivateRunInputs → Counts → Sensitivity → SensitivityRow
unfolding view_pair shared_platform_cost
sensitivity_row config managed_cost inputs n sensitivity =
    let hours = inputs.shared_platform_billed_hours in
    let additions = shared_platform_cost config hours +ᵈ operations_cost config hours sensitivity in
    record {
      views = view_pair n (managed_cost +ᵈ additions) (private_view_a config inputs +ᵈ additions);
      platform_components_usd =
          shared_platform_components config hours ++ operations_cost config hours sensitivity ∷ [];
      operations_monthly_allocation_usd = monthly_cost (config.operations sensitivity);
    }

pub run_views : CostConfig → Decimal → PrivateRunInputs → Counts → RunViews
unfolding sensitivity_row
run_views config managed_cost inputs n = record {
  view_a = view_pair n managed_cost (private_view_a config inputs);
  view_b = sensitivity_row config managed_cost inputs n;
}
