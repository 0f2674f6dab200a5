-- ===== src/Costing/Grid/Totals.antt =====
-- costing/scenario_grid.py: the path that a row calls cheaper.
use ai_inference_cost_optimi.Prelude.{
  ℕ, ◌+◌, ◌*◌, ◌<◌, ◌≡◌, ◌⊎◌, inl, inr, true, some, arith, ltb→le, eqb, Bool-cases,
}
use ai_inference_cost_optimi.Decimal.{Decimal, whole, ◌≈◌, ◌*ᵈ◌, less}
use ai_inference_cost_optimi.Decimal.Order.{less_scaled}
use ai_inference_cost_optimi.Costing.Grid.{
  LowerPath, indeterminate, lower_managed, lower_private, equal, ratio, per_correct, lower_path,
}

-- The cheaper path for a correct answer, by totals and qualities alone: cross-multiplied, so that the
-- number of requests plays no part.
abbrev pub IsLower : Decimal → Decimal → Decimal → Decimal → LowerPath → Type 0
IsLower m p qm qp indeterminate = (qm.numerator ≡ 0) ⊎ (qp.numerator ≡ 0)
IsLower m p qm qp lower_managed = less (m *ᵈ qp) (p *ᵈ qm) ≡ true
IsLower m p qm qp lower_private = less (p *ᵈ qm) (m *ᵈ qp) ≡ true
IsLower m p qm qp equal = m *ᵈ qp ≈ p *ᵈ qm

-- Costs for a correct answer compare as totals weighed by the other path's quality.
less-ratio :
    (n : ℕ) (m p qm qp : Decimal)
    → 0 < n
    → less (ratio m (whole n *ᵈ qm)) (ratio p (whole n *ᵈ qp)) ≡ less (m *ᵈ qp) (p *ᵈ qm)
unfolding ratio ◌*ᵈ◌
less-ratio n m p qm qp h =
    let a = m.numerator * qp.numerator * (p.denominator * qm.denominator) in
    let b = p.numerator * qm.numerator * (m.denominator * qp.denominator) in
    let left : m.numerator * (1 * qm.denominator) * (p.denominator * (n * qp.numerator))
        ≡ a * n + 0 =
      omega arith in
    let right : p.numerator * (1 * qp.denominator) * (m.denominator * (n * qm.numerator))
        ≡ b * n + 0 =
      omega arith in
    rw (left, right) (less_scaled a b n 0 h)

zero_of_product : (n q : ℕ) → 0 < n → n * q ≡ 0 → q ≡ 0
zero_of_product n q h e = grind arith

pub lower_path-IsLower :
    (n : ℕ) (m p qm qp : Decimal)
    → 0 < n
    → IsLower m p qm qp (lower_path (per_correct m (whole n *ᵈ qm)) (per_correct p (whole n *ᵈ qp)))
unfolding per_correct ◌*ᵈ◌ lower_path
lower_path-IsLower n m p qm qp h = elim (Bool-cases (eqb (n * qm.numerator) 0)) [
  | inl e ↦ rw e (inl (zero_of_product n qm.numerator h (ground arith)))
  | inr e ↦ elim (Bool-cases (eqb (n * qp.numerator) 0)) [
    | inl f ↦ rw (e, f) (inr (zero_of_product n qp.numerator h (ground arith)))
    | inr f ↦ rw (e, f) (compared (less-ratio n m p qm qp h) (less-ratio n p m qp qm h))
  ]
]
  where
    compared :
        less (ratio m (whole n *ᵈ qm)) (ratio p (whole n *ᵈ qp)) ≡ less (m *ᵈ qp) (p *ᵈ qm)
        → less (ratio p (whole n *ᵈ qp)) (ratio m (whole n *ᵈ qm)) ≡ less (p *ᵈ qm) (m *ᵈ qp)
        → IsLower m p qm qp
            (lower_path (some (ratio m (whole n *ᵈ qm))) (some (ratio p (whole n *ᵈ qp))))
    compared x y = elim (Bool-cases (less (m *ᵈ qp) (p *ᵈ qm))) [
      | inl a ↦ rw (x, a) a
      | inr a ↦ elim (Bool-cases (less (p *ᵈ qm) (m *ᵈ qp))) [
        | inl b ↦ rw (x, a, y, b) b
        | inr b ↦ rw (x, a, y, b) (omega (arith, ltb→le _ _ a, ltb→le _ _ b))
      ]
    ]
