-- ===== src/Config/Providers/Prices.antt =====
-- config/schema.py: a validated document prices every model of every managed provider.
use mathlib.Core.Bool.{false≢true}
use ai_inference_cost_optimi.Prelude.{
  String, ◌≡◌, refl, sym, inl, inr, true, false, not, Option, none, some, List, [], ◌∷◌, arith,
  subst, Bool-cases, or_default, not-true, All, All-map_lem, length, length-filter_zero,
}
use ai_inference_cost_optimi.Prelude.Equality.{◌==◌, string_eq, elem}
use ai_inference_cost_optimi.Prelude.Dict.{Dict, get, keys, All-get, elem-keys, get_of_elem}
use ai_inference_cost_optimi.Prelude.Result.{ok, check_all, check_all_iff}
use ai_inference_cost_optimi.Config.Providers.{
  ProviderModelConfig, is_managed, ProviderConfig, PricingConfig, ProvidersDocument, difference,
  prices_of, check_alias, check_pricing, check_managed, references_and_managed_prices_exist,
  validate_providers,
}

All-elem : (P : String → Type 0) (a : String) (xs : List String) → All P xs → elem a xs ≡ true → P a
All-elem P a [] h e = absurd (false≢true e)
All-elem P a (x ∷ xs) h e = elim (Bool-cases (a == x)) [
  | inl same ↦ subst P (sym ((string_eq.same_iff a x).0 same)) h.0
  | inr other ↦ All-elem P a xs h.1 (ground arith)
]

-- Nothing is left of a difference: what is in the one list is in the other.
elem_of_difference :
    (a : String) (xs ys : List String)
    → length (difference xs ys) ≡ 0
    → elem a xs ≡ true
    → elem a ys ≡ true
elem_of_difference a xs ys none_left h =
    All-elem (λ x. elem x ys ≡ true) a xs
      (All-map_lem (λ x (e : not (elem x ys) ≡ false). not-true _ e) xs
        ((length-filter_zero (λ x. not (elem x ys)) xs).0 none_left))
      h

-- The model names a price under the provider's name.
abbrev pub Priced : ProvidersDocument → String → String → Type 0
Priced doc provider model =
    (prices : Dict PricingConfig) × (pricing : PricingConfig) × (get provider doc.pricing
      ≡ some prices)
    × (get model prices ≡ some pricing)

check_managed-difference :
    (doc : ProvidersDocument) (name : String) (p : ProviderConfig)
    → check_managed doc (name, p) ≡ ok tt
    → is_managed p.kind ≡ true
    → length (difference (keys p.models) (keys (prices_of doc name))) ≡ 0
unfolding check_managed
check_managed-difference doc name p h m = ground arith

Priced-of_prices :
    (doc : ProvidersDocument) (name model : String)
    → elem model (keys (prices_of doc name)) ≡ true
    → Priced doc name model
Priced-of_prices doc name model = go (get name doc.pricing) refl
  where
    go :
        (o : Option (Dict PricingConfig))
        → get name doc.pricing ≡ o
        → elem model (keys (or_default o [])) ≡ true
        → Priced doc name model
    go none e h = absurd (false≢true h)
    go (some prices) e h =
        let (pricing, found) = get_of_elem model prices h in (prices, pricing, e, found)

validate_providers_steps :
    (doc doc' : ProvidersDocument)
    → validate_providers doc ≡ ok doc'
    → references_and_managed_prices_exist doc ≡ ok tt
unfolding validate_providers
validate_providers_steps doc doc' h = ground arith

references_steps :
    (doc : ProvidersDocument)
    → references_and_managed_prices_exist doc ≡ ok tt
    → (check_all (check_alias doc) doc.route_aliases ≡ ok tt)
      × (check_all (check_pricing doc) doc.pricing ≡ ok tt)
      × (check_all (check_managed doc) doc.providers ≡ ok tt)
unfolding references_and_managed_prices_exist
references_steps doc h = ground arith

-- In a document that validation accepts, every model of a managed provider has a price.
pub validate_providers-Priced :
    (doc doc' : ProvidersDocument) (name model : String) (p : ProviderConfig)
    (m : ProviderModelConfig)
    → validate_providers doc ≡ ok doc'
    → get name doc.providers ≡ some p
    → is_managed p.kind ≡ true
    → get model p.models ≡ some m
    → Priced doc name model
validate_providers-Priced doc doc' name model p m valid found managed offers =
    let (aliases, pricing, priced) =
      references_steps doc (validate_providers_steps doc doc' valid) in
    let checked =
      All-get (λ item. check_managed doc item ≡ ok tt) name doc.providers
        ((check_all_iff (check_managed doc) doc.providers).0 priced) found in
    Priced-of_prices doc name model (
      elem_of_difference model (keys p.models) (keys (prices_of doc name))
        (check_managed-difference doc name p checked managed) (elem-keys model p.models offers))
