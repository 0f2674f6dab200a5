-- ===== src/Costing/Capacity/Bounds.antt =====
-- costing/scenario_grid.py: the replicas are enough, and one fewer is not.
use ai_inference_cost_optimi.Prelude.{
  ℕ, ◌-◌, ◌*◌, ◌≤◌, ◌<◌, ◌≡◌, ◌⊎◌, inl, inr, arith, eqb, Bool-cases,
}
use ai_inference_cost_optimi.Prelude.Result.{Result, ok, err}
use ai_inference_cost_optimi.Costing.Capacity.{CapacityError, ceil_div, required_replicas}

-- `n` replicas carry the volume, and no fewer do.
abbrev pub Fits : ℕ → ℕ → Result CapacityError ℕ → Type 0
Fits volume each (ok n) = (0 < n) × (volume ≤ n * each) × ((n - 1) * each < volume)
Fits volume each (err e) = (volume ≡ 0) ⊎ (each ≡ 0)

ceil_div_bounds :
    (a b : ℕ)
    → 0 < a
    → 0 < b
    → (0 < ceil_div a b) × (a ≤ ceil_div a b * b) × ((ceil_div a b - 1) * b < a)
unfolding ceil_div
ceil_div_bounds a b p q = grind arith

-- The number of replicas is the least that carries the volume; only inputs of 0 are refused.
pub required_replicas-Fits : (volume each : ℕ) → Fits volume each (required_replicas volume each)
unfolding required_replicas
required_replicas-Fits volume each = elim (Bool-cases (eqb volume 0)) [
  | inl e ↦ rw e (inl (ground arith))
  | inr p ↦ elim (Bool-cases (eqb each 0)) [
    | inl e ↦ rw (p, e) (inr (ground arith))
    | inr q ↦ rw (p, q) (ceil_div_bounds volume each (ground arith) (ground arith))
  ]
]
