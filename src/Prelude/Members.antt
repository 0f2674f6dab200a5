-- ===== src/Prelude/Members.antt =====
-- Lists of allowed values: membership, and a list that may be missing.
use mathlib.Core.Path.{◌≡◌}
use mathlib.Core.Bool.{true}
use mathlib.Core.Logic.{◌↔◌}
use mathlib.Core.Option.{Option, none, some}
use mathlib.Core.List.{List, [], ◌∷◌}
use native.Mathlib.Omega.{arith}
use ai_inference_cost_optimi.Prelude.Lists.{Exists}
use ai_inference_cost_optimi.Prelude.Equality.{Eq, elem}

pub elem_iff :
    {A : Type 0} ⦃e : Eq A⦄ → (a : A) (xs : List A) → (elem a xs ≡ true) ↔ Exists (λ x. a ≡ x) xs
elem_iff ⦃e⦄ a [] = (λ h. cc, λ h. elim h [ ])
elem_iff ⦃e⦄ a (x ∷ xs) = ground (arith, e.same_iff a x, elem_iff a xs)

-- A value is accepted: there is no list, or the value stands in the list.
abbrev pub Accepts : {A : Type 0} → Option (List A) → A → Type 0
Accepts none a = Unit
Accepts (some allowed) a = Exists (λ x. a ≡ x) allowed
