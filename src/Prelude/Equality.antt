-- ===== src/Prelude/Equality.antt =====
-- The equality test of a type, as an instance, and membership by it (`x in xs`).
use Prim.Native.String.{String}
use mathlib.Core.Path.{◌≡◌}
use mathlib.Core.Logic.{◌↔◌}
use mathlib.Core.Bool.{Bool, true, false, ◌||◌}
use mathlib.Core.List.{List, [], ◌∷◌}
use text.Mathlib.Text.{◌==◌ as text_test}
use text.Mathlib.TextEquality.{eq_iff}

infix 50 ◌==◌
pub record Eq {ℓ} (T : Type ℓ) : Type ℓ where
  pub same : T → T → Bool
  pub same_iff : (x y : T) → (same x y ≡ true) ↔ (x ≡ y)

abbrev pub ◌==◌ {ℓ} : {T : Type ℓ} ⦃test : Eq T⦄ → T → T → Bool
◌==◌ ⦃test⦄ = test.same

module _ {ℓ} {T : Type ℓ} ⦃test : Eq T⦄ where
  abbrev pub elem : T → List T → Bool
  elem x [] = false
  elem x (y ∷ ys) = x == y || elem x ys

instance abbrev pub string_eq : Eq String
string_eq = record { same_iff = eq_iff; same = text_test }
