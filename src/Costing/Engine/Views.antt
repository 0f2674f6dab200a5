-- ===== src/Costing/Engine/Views.antt =====
-- costing/engine.py: the averages of a view, and how View B stands to View A.
use ai_inference_cost_optimi.Prelude.{
  ℕ, ◌<◌, String, ◌≡◌, refl, ◌⊎◌, inl, inr, Option, none, some, List, [], ◌∷◌, arith, ltb, eqb,
  ltb→lt, All, Bool-cases, if◌then◌else◌,
}
use ai_inference_cost_optimi.Decimal.{
  Decimal, zero_decimal, whole, IsProper, ◌≈◌, ◌+ᵈ◌, ◌*ᵈ◌, less, sum_from,
}
use ai_inference_cost_optimi.Decimal.Order.{over-*ᵈ, less-+ᵈ, mul_pos, sum_from-snoc}
use ai_inference_cost_optimi.Config.Pricing.{million}
use ai_inference_cost_optimi.Costing.Rates.{Sensitivity, CostConfig, PrivateRunInputs}
use ai_inference_cost_optimi.Costing.Engine.{
  shared_platform_components, operations_cost, per, has_tokens, view, ViewCost, Counts, run_views,
}

-- An average is missing exactly where there is nothing to share the total, and otherwise gives the
-- total back.
abbrev pub IsAverage : Decimal → Option ℕ → Option Decimal → Type 0
IsAverage total count none = (count ≡ none) ⊎ (count ≡ some 0)
IsAverage total count (some x) = (n : ℕ) × (count ≡ some n) × (0 < n) × (x *ᵈ whole n ≈ total)

per-IsAverage : (total : Decimal) (count : Option ℕ) → IsAverage total count (per total count)
unfolding per
per-IsAverage total none = inl refl
per-IsAverage total (some n) = elim (Bool-cases (eqb n 0)) [
  | inl e ↦ rw e (inr (ground arith))
  | inr e ↦ rw e (n, refl, ground arith, over-*ᵈ total n)
]

per_million-IsAverage :
    (total : Decimal) (tokens : Option ℕ)
    → IsAverage total tokens (if has_tokens tokens then per total tokens else none)
per_million-IsAverage total none = inl refl
per_million-IsAverage total (some n) = elim (Bool-cases (ltb 0 n)) [
  | inl e ↦ rw e (per-IsAverage total (some n))
  | inr e ↦ rw e (inr (ground arith))
]

-- A token count and its definition are reported exactly where there are tokens.
abbrev pub IsReported : Option ℕ → String → ViewCost → Type 0
IsReported tokens definition v =
    ((v.cost_per_1m_tokens_usd ≡ none) × (v.token_count ≡ none) × (v.token_definition ≡ none))
    ⊎ ((n : ℕ) × (tokens ≡ some n)
        × (0 < n)
        × (v.token_count ≡ some n)
        × (v.token_definition ≡ some definition))

view-IsReported :
    (total : Decimal) (requests : ℕ) (correct tokens : Option ℕ) (definition : String)
    → IsReported tokens definition (view total requests correct tokens definition)
unfolding view
view-IsReported total requests correct none definition = inl (refl, refl, refl)
view-IsReported total requests correct (some n) definition = elim (Bool-cases (ltb 0 n)) [
  | inl e ↦ rw e (inr (n, refl, ltb→lt 0 n e, refl, refl))
  | inr e ↦ rw e (inl (refl, refl, refl))
]

pub record IsView (total : Decimal) (requests : ℕ) (correct tokens : Option ℕ) (definition : String)
    (v : ViewCost) : Type 0 where
  pub total_usd : v.total_usd ≡ total
  pub per_request : IsAverage total (some requests) v.cost_per_request_usd
  pub per_correct_task : IsAverage total correct v.cost_per_correct_task_usd
  pub per_1m_tokens : IsAverage (total *ᵈ whole million) tokens v.cost_per_1m_tokens_usd
  pub reported : IsReported tokens definition v

-- Every average of a view, times its count, is the total; it is missing exactly where the count is
-- missing or 0. A token count and its definition are reported exactly with the price per million.
pub view-IsView :
    (total : Decimal) (requests : ℕ) (correct tokens : Option ℕ) (definition : String)
    → IsView total requests correct tokens definition
        (view total requests correct tokens definition)
unfolding view
view-IsView total requests correct tokens definition = record {
  total_usd = refl;
  per_request = per-IsAverage total (some requests);
  per_correct_task = per-IsAverage total correct;
  per_1m_tokens = per_million-IsAverage (total *ᵈ whole million) tokens;
  reported = view-IsReported total requests correct tokens definition;
}

-- A row of View B adds the same platform components to the managed and to the private total of
-- View A, and adds nothing else.
pub run_views_additions :
    (config : CostConfig) (managed_cost : Decimal) (inputs : PrivateRunInputs) (n : Counts)
    (s : Sensitivity)
    → let v = run_views config managed_cost inputs n in
      let platform = sum_from zero_decimal (v.view_b s).platform_components_usd in
      ((v.view_b s).views.managed.total_usd ≡ v.view_a.managed.total_usd +ᵈ platform)
      × ((v.view_b s).views.private.total_usd ≡ v.view_a.private.total_usd +ᵈ platform)
unfolding run_views
run_views_additions config managed_cost inputs n s =
    let parts =
      sum_from-snoc zero_decimal
        (shared_platform_components config inputs.shared_platform_billed_hours)
        (operations_cost config inputs.shared_platform_billed_hours s) in
    (rw parts, rw parts)

sum_from-IsProper :
    (acc : Decimal) (xs : List Decimal)
    → IsProper acc
    → All IsProper xs
    → IsProper (sum_from acc xs)
unfolding sum_from ◌+ᵈ◌
sum_from-IsProper acc [] p h = p
sum_from-IsProper acc (x ∷ xs) p h =
    sum_from-IsProper (acc +ᵈ x) xs (mul_pos acc.denominator x.denominator p h.0) h.1

-- The cheaper of the two paths in View A is the cheaper one in every row of View B.
pub run_views_order :
    (config : CostConfig) (managed_cost : Decimal) (inputs : PrivateRunInputs) (n : Counts)
    (s : Sensitivity)
    → All IsProper ((run_views config managed_cost inputs n).view_b s).platform_components_usd
    → let v = run_views config managed_cost inputs n in
      less (v.view_b s).views.managed.total_usd (v.view_b s).views.private.total_usd
      ≡ less v.view_a.managed.total_usd v.view_a.private.total_usd
run_views_order config managed_cost inputs n s proper =
    let v = run_views config managed_cost inputs n in
    let platform = sum_from zero_decimal (v.view_b s).platform_components_usd in
    let (managed, private) = run_views_additions config managed_cost inputs n s in
    rw (managed, private)
      (less-+ᵈ v.view_a.managed.total_usd v.view_a.private.total_usd platform
        (sum_from-IsProper zero_decimal _ (omega arith) proper))
