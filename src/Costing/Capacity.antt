-- ===== src/Costing/Capacity.antt =====
-- costing/scenario_grid.py: how many replicas a monthly volume needs.
pub mod Bounds
use ai_inference_cost_optimi.Prelude.{ℕ, ◌+◌, ◌-◌, ◌/◌, Bool, true, false, ◌||◌, eqb, if◌then◌else◌}
use ai_inference_cost_optimi.Prelude.Result.{Result, ok, err}

pub data CapacityError : Type 0 where
  inputs_not_positive : CapacityError

-- `math.ceil(a / b)`, for whole numbers that a float holds exactly
pub ceil_div : ℕ → ℕ → ℕ
ceil_div a b = (a + b - 1) / b

pub required_replicas : ℕ → ℕ → Result CapacityError ℕ
required_replicas monthly_requests requests_per_replica_month =
    if eqb monthly_requests 0 || eqb requests_per_replica_month 0
    then err inputs_not_positive
    else ok (ceil_div monthly_requests requests_per_replica_month)
