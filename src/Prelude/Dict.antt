-- ===== src/Prelude/Dict.antt =====
-- A Python `dict` with text keys: its items in insertion order.
use Prim.Native.String.{String}
use mathlib.Core.Path.{◌≡◌, subst}
use mathlib.Core.Bool.{true, false≢true}
use text.Mathlib.TextEquality.{eq_iff}
use mathlib.Core.Option.{Option, none, some}
use mathlib.Core.Logic.{inl, inr}
use mathlib.Core.List.{List, [], ◌∷◌}
use native.Mathlib.Omega.{arith}
use ai_inference_cost_optimi.Prelude.Tests.{if◌then◌else◌, Bool-cases}
use ai_inference_cost_optimi.Prelude.Lists.{All}
use ai_inference_cost_optimi.Prelude.Equality.{◌==◌, string_eq, elem}

abbrev pub Dict {ℓ} : Type ℓ → Type ℓ
Dict V = List (String × V)

module _ {ℓ} {V : Type ℓ} where
  -- `d.get(k)`
  abbrev pub get : String → Dict V → Option V
  get k [] = none
  get k ((j, v) ∷ d) = if j == k then some v else get k d

  abbrev pub keys : Dict V → List String
  keys [] = []
  keys ((j, v) ∷ d) = j ∷ keys d

none-some : {V : Type 0} {v : V} → none ≡ some v → ⊥
none-some e = cc

module _ {V : Type 0} where
  -- What holds of all items holds of the item that a lookup finds.
  pub All-get :
      (P : String × V → Type 0) (k : String) (d : Dict V) {v : V}
      → All P d
      → get k d ≡ some v
      → P (k, v)
  All-get P k [] h e = absurd (none-some e)
  All-get P k ((j, w) ∷ d) {v} h e = elim (Bool-cases (j == k)) [
    | inl same ↦
        let here : w ≡ v = cc same in
        subst (λ x. P (x, v)) ((eq_iff j k).0 same) (subst (λ x. P (j, x)) here h.0)
    | inr other ↦ All-get P k d h.1 (rw other at e)
  ]

  pub elem-keys : (k : String) (d : Dict V) {v : V} → get k d ≡ some v → elem k (keys d) ≡ true
  elem-keys k [] e = absurd (none-some e)
  elem-keys k ((j, w) ∷ d) {v} e =
      ground (arith, eq_iff j k, eq_iff k j, λ (p : get k d ≡ some v). elem-keys k d p)

  pub get_of_elem :
      (k : String) (d : Dict V) → elem k (keys d) ≡ true → (v : V) × (get k d ≡ some v)
  get_of_elem k [] h = absurd (false≢true h)
  get_of_elem k ((j, w) ∷ d) h = elim (Bool-cases (j == k)) [
    | inl same ↦ (w, rw same)
    | inr other ↦
        let (v, e) = get_of_elem k d (ground (arith, eq_iff j k, eq_iff k j)) in (v, rw other e)
  ]
