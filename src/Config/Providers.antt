-- ===== src/Config/Providers.antt =====
-- config/schema.py, from ProviderModelConfig to ProvidersDocument. A validator returns the first
-- error; the bounds on single fields are checked before the model validator, as Pydantic does.
pub mod Prices
pub mod Examples
use ai_inference_cost_optimi.Prelude.{
  ℕ, String, Bool, true, false, not, ◌&&◌, ◌||◌, Option, none, some, List, [], ◌∷◌, eqb, length,
  filter, or_default, present, all,
}
use ai_inference_cost_optimi.Prelude.Equality.{◌==◌, string_eq, elem}
use ai_inference_cost_optimi.Prelude.Dict.{Dict, get, keys}
use ai_inference_cost_optimi.Prelude.Text.{blank, codes, is_upper}
use ai_inference_cost_optimi.Prelude.Result.{Result, ok, err, ◌>>=◌, ◌>>◌, raise_if, check_all}
use ai_inference_cost_optimi.Decimal.{Decimal}

pub record ProviderModelConfig : Type 0 where
  pub upstream_model : String
  pub supports_sampling : Bool

pub data ProviderKind : Type 0 where
  openai_compatible managed : ProviderKind

abbrev pub is_managed : ProviderKind → Bool
is_managed openai_compatible = false
is_managed managed = true

pub record ProviderConfig : Type 0 where
  pub kind : ProviderKind
  pub external : Bool
  pub models : Dict ProviderModelConfig
  pub base_url_env : Option String
  pub adapter : Option String
  pub api_key_env : Option String

pub record RouteAliasConfig : Type 0 where
  pub provider : String
  pub model : String

-- The pricing engine reads neither the date of a price, nor its source, nor the price of cached
-- input, which are left out with their bounds. A price is not negative by its type.
pub record PricingConfig : Type 0 where
  pub currency : String
  pub input_per_1m : Decimal
  pub output_per_1m : Decimal

pub record ProvidersDocument : Type 0 where
  pub providers : Dict ProviderConfig
  pub route_aliases : Dict RouteAliasConfig
  pub pricing : Dict (Dict PricingConfig)

pub data ProvidersError : Type 0 where
  field_constraint : String → ProvidersError
  needs_base_url_env : ProvidersError
  needs_adapter : ProvidersError
  alias_unknown_provider : String → String → ProvidersError
  alias_unknown_model : String → String → ProvidersError
  pricing_unknown_provider : String → ProvidersError
  pricing_unknown_models : String → List String → ProvidersError
  missing_prices : String → List String → ProvidersError

-- `set(xs).difference(ys)`
abbrev pub difference : List String → List String → List String
difference xs ys = filter (λ x. not (elem x ys)) xs

abbrev pub nonempty : {A : Type 0} → List A → Bool
nonempty xs = not (eqb (length xs) 0)

model_fields : String × ProviderModelConfig → Result ProvidersError Unit
model_fields (name, m) = raise_if (m.upstream_model == "") (field_constraint "upstream_model")

-- The fields of ProviderConfig and its model validator.
required_adapter_fields : String × ProviderConfig → Result ProvidersError Unit
required_adapter_fields (name, p) = do
  check_all model_fields p.models
  raise_if (eqb (length p.models) 0) (field_constraint "models")
  raise_if (not (is_managed p.kind) && blank p.base_url_env) needs_base_url_env
  raise_if (is_managed p.kind && blank p.adapter) needs_adapter

alias_fields : String × RouteAliasConfig → Result ProvidersError Unit
alias_fields (name, a) = do
  raise_if (a.provider == "") (field_constraint "provider")
  raise_if (a.model == "") (field_constraint "model")

-- The pattern of a currency: three letters of `[A-Z]`.
pricing_fields : String × PricingConfig → Result ProvidersError Unit
pricing_fields (name, pricing) =
    let letters = codes pricing.currency in
    raise_if (not (eqb (length letters) 3 && all is_upper letters)) (field_constraint "currency")

model_prices_fields : String × Dict PricingConfig → Result ProvidersError Unit
model_prices_fields (name, prices) = check_all pricing_fields prices

-- One round of each loop of `references_and_managed_prices_exist`.
check_alias : ProvidersDocument → String × RouteAliasConfig → Result ProvidersError Unit
check_alias doc (alias_name, alias) = elim (get alias.provider doc.providers) [
  | none ↦ err (alias_unknown_provider alias_name alias.provider)
  | some provider ↦
      raise_if (not (present (get alias.model provider.models)))
        (alias_unknown_model alias_name alias.model)
]

check_pricing : ProvidersDocument → String × Dict PricingConfig → Result ProvidersError Unit
check_pricing doc (provider_name, model_prices) = elim (get provider_name doc.providers) [
  | none ↦ err (pricing_unknown_provider provider_name)
  | some provider ↦
      let unknown_models = difference (keys model_prices) (keys provider.models) in
      raise_if (nonempty unknown_models) (pricing_unknown_models provider_name unknown_models)
]

-- `self.pricing.get(provider_name, {})`
abbrev pub prices_of : ProvidersDocument → String → Dict PricingConfig
prices_of doc provider_name = or_default (get provider_name doc.pricing) []

check_managed : ProvidersDocument → String × ProviderConfig → Result ProvidersError Unit
check_managed doc (provider_name, provider) =
    let missing = difference (keys provider.models) (keys (prices_of doc provider_name)) in
    raise_if (is_managed provider.kind && nonempty missing) (missing_prices provider_name missing)

pub references_and_managed_prices_exist : ProvidersDocument → Result ProvidersError Unit
references_and_managed_prices_exist doc = do
  check_all (check_alias doc) doc.route_aliases
  check_all (check_pricing doc) doc.pricing
  check_all (check_managed doc) doc.providers

-- `ProvidersDocument.model_validate`
pub validate_providers : ProvidersDocument → Result ProvidersError ProvidersDocument
validate_providers doc = do
  check_all required_adapter_fields doc.providers
  raise_if (eqb (length doc.providers) 0) (field_constraint "providers")
  check_all alias_fields doc.route_aliases
  check_all model_prices_fields doc.pricing
  references_and_managed_prices_exist doc
  ok doc
