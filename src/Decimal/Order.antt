-- ===== src/Decimal/Order.antt =====
-- Arithmetic of exact decimals up to the number they stand for.
use ai_inference_cost_optimi.Prelude.{
  ℕ, ◌+◌, ◌*◌, ◌≤◌, ◌<◌, ◌≡◌, refl, inl, inr, List, [], ◌∷◌, ◌++◌, arith, ltb, ltb→lt, ltb→le,
  Bool-cases,
}
use ai_inference_cost_optimi.Decimal.{
  Decimal, whole, IsProper, ◌≈◌, ◌+ᵈ◌, ◌*ᵈ◌, over, sum_from, less,
}

pub +ᵈ_comm : (a b : Decimal) → a +ᵈ b ≈ b +ᵈ a
unfolding ◌+ᵈ◌
+ᵈ_comm a b = omega arith

pub +ᵈ_assoc : (a b c : Decimal) → a +ᵈ b +ᵈ c ≈ a +ᵈ (b +ᵈ c)
unfolding ◌+ᵈ◌
+ᵈ_assoc a b c = omega arith

pub +ᵈ_swap : (a b c d : Decimal) → a +ᵈ b +ᵈ (c +ᵈ d) ≈ a +ᵈ d +ᵈ (c +ᵈ b)
unfolding ◌+ᵈ◌
+ᵈ_swap a b c d = omega arith

-- A price split over `n` parts and taken `n` times is the price again.
pub over-*ᵈ : (a : Decimal) (n : ℕ) → over a n *ᵈ whole n ≈ a
unfolding over ◌*ᵈ◌
over-*ᵈ a n = omega arith

mul_le : (a b k : ℕ) → a ≤ b → a * k ≤ b * k
mul_le a b k h = grind arith

mul_lt : (a b k : ℕ) → 0 < k → a < b → a * k < b * k
mul_lt a b k p h = grind arith

pub less_scaled : (a b k z : ℕ) → 0 < k → ltb (a * k + z) (b * k + z) ≡ ltb a b
less_scaled a b k z h = elim (Bool-cases (ltb a b)) [
  | inl e ↦ rw e (ground (arith, mul_lt a b k h (ltb→lt a b e)))
  | inr e ↦ rw e (ground (arith, mul_le b a k (ltb→le a b e)))
]

pub mul_pos : (a b : ℕ) → 0 < a → 0 < b → 0 < a * b
mul_pos a b h k = grind arith

-- Adding one amount to both sides keeps the order.
pub less-+ᵈ : (a b c : Decimal) → IsProper c → less (a +ᵈ c) (b +ᵈ c) ≡ less a b
unfolding ◌+ᵈ◌
less-+ᵈ a b c h =
    let k = c.denominator * c.denominator in
    let z = c.numerator * a.denominator * b.denominator * c.denominator in
    let left : (a.numerator * c.denominator + c.numerator * a.denominator)
          * (b.denominator * c.denominator)
        ≡ a.numerator * b.denominator * k + z =
      omega arith in
    let right : (b.numerator * c.denominator + c.numerator * b.denominator)
          * (a.denominator * c.denominator)
        ≡ b.numerator * a.denominator * k + z =
      omega arith in
    rw (left, right)
      (less_scaled (a.numerator * b.denominator) (b.numerator * a.denominator) k z
        (mul_pos c.denominator c.denominator h h))

-- A sum to which one more amount is added.
pub sum_from-snoc :
    (acc : Decimal) (xs : List Decimal) (y : Decimal)
    → sum_from acc (xs ++ y ∷ []) ≡ sum_from acc xs +ᵈ y
unfolding sum_from
sum_from-snoc acc [] y = refl
sum_from-snoc acc (x ∷ xs) y = sum_from-snoc (acc +ᵈ x) xs y
