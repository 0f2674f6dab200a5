-- ===== src/Costing/Rates.antt =====
-- costing/models.py: the rates of the cost configuration and the inputs of one run.
use ai_inference_cost_optimi.Decimal.{Decimal, ◌*ᵈ◌}

pub record OperationsAllocation : Type 0 where
  pub hours_per_month : Decimal
  pub hourly_rate_usd : Decimal
  pub allocation_fraction : Decimal

unfoldable pub monthly_cost : OperationsAllocation → Decimal
monthly_cost a = a.hours_per_month *ᵈ a.hourly_rate_usd *ᵈ a.allocation_fraction

pub record SharedPlatformRates : Type 0 where
  pub gateway_hourly_usd : Decimal
  pub network_nat_hourly_usd : Decimal
  pub control_plane_hourly_usd : Decimal
  pub shared_storage_hourly_usd : Decimal
  pub observability_hourly_usd : Decimal

pub record PrivateRates : Type 0 where
  pub gpu_node_hourly_usd : Decimal
  pub cpu_node_hourly_usd : Decimal
  pub model_storage_hourly_usd : Decimal
  pub model_transfer_per_gb_usd : Decimal
  pub node_lifecycle_hourly_usd : Decimal

-- The keys of `operations`, which validation requires to be these three.
pub data Sensitivity : Type 0 where
  low typical high : Sensitivity

-- The part of CostConfig that prices a run.
pub record CostConfig : Type 0 where
  pub private : PrivateRates
  pub shared : SharedPlatformRates
  pub operations : Sensitivity → OperationsAllocation

pub record PrivateRunInputs : Type 0 where
  pub gpu_node_billed_hours : Decimal
  pub cpu_node_billed_hours : Decimal
  pub model_storage_billed_hours : Decimal
  pub model_transfer_gb : Decimal
  pub node_lifecycle_billed_hours : Decimal
  pub shared_platform_billed_hours : Decimal
