-- ===== src/Decimal.antt =====
-- Python's `Decimal`, as far as the gateway's money needs it: exact numbers that are not negative,
-- as a numerator over a denominator. The 28 digits after which Python rounds are not modelled.
pub mod Order
use ai_inference_cost_optimi.Prelude.{
  ℕ, ◌+◌, ◌*◌, ◌≤◌, ◌<◌, ◌≡◌, Bool, List, [], ◌∷◌, ltb, eqb, arith,
}

pub record Decimal : Type 0 where
  pub numerator : ℕ
  pub denominator : ℕ

abbrev pub decimal : ℕ → ℕ → Decimal
decimal n d = record { numerator = n; denominator = d }

-- `Decimal(n)` of a whole number
abbrev pub whole : ℕ → Decimal
whole n = decimal n 1

abbrev pub zero_decimal : Decimal
zero_decimal = whole 0

-- A fraction stands for a number.
abbrev pub IsProper : Decimal → Type 0
IsProper a = 0 < a.denominator

-- Two fractions stand for one number.
infix 4 ◌≈◌
abbrev pub ◌≈◌ : Decimal → Decimal → Type 0
a ≈ b = a.numerator * b.denominator ≡ b.numerator * a.denominator

infixl 65 ◌+ᵈ◌
unfoldable pub ◌+ᵈ◌ : Decimal → Decimal → Decimal
a +ᵈ b =
    decimal (a.numerator * b.denominator + b.numerator * a.denominator)
      (a.denominator * b.denominator)

infixl 70 ◌*ᵈ◌
unfoldable pub ◌*ᵈ◌ : Decimal → Decimal → Decimal
a *ᵈ b = decimal (a.numerator * b.numerator) (a.denominator * b.denominator)

-- `a / Decimal(n)` for a whole number above 0
unfoldable pub over : Decimal → ℕ → Decimal
over a n = decimal a.numerator (a.denominator * n)

abbrev pub less : Decimal → Decimal → Bool
less a b = ltb (a.numerator * b.denominator) (b.numerator * a.denominator)

-- `sum(xs, acc)`: from the left
unfoldable pub sum_from : Decimal → List Decimal → Decimal
sum_from acc [] = acc
sum_from acc (x ∷ xs) = sum_from (acc +ᵈ x) xs
