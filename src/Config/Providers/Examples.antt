-- ===== src/Config/Providers/Examples.antt =====
-- config/schema.py, ProvidersDocument: a document with one managed provider.
use ai_inference_cost_optimi.Prelude.{◌≡◌, refl, true, false, none, some, [], ◌∷◌}
use ai_inference_cost_optimi.Prelude.Result.{ok, err, check_all}
use ai_inference_cost_optimi.Decimal.{whole}
use ai_inference_cost_optimi.Config.Providers.{
  ProviderModelConfig, openai_compatible, managed, ProviderConfig, PricingConfig, ProvidersDocument,
  missing_prices, model_fields, required_adapter_fields, alias_fields, check_alias, check_pricing,
  check_managed, references_and_managed_prices_exist, validate_providers, pricing_fields,
  model_prices_fields,
}
use ai_inference_cost_optimi.Config.Providers.Prices.{Priced, validate_providers-Priced}

abbrev pub sonnet : ProviderModelConfig
sonnet = record { upstream_model = "sonnet-4"; supports_sampling = true }

abbrev pub anthropic : ProviderConfig
anthropic = record {
  kind = managed;
  external = true;
  models = ("sonnet", sonnet) ∷ [];
  base_url_env = none;
  adapter = some "anthropic";
  api_key_env = some "KEY";
}

abbrev local_server : ProviderConfig
local_server = record {
  kind = openai_compatible;
  external = false;
  models = ("llama", record { upstream_model = "llama-8b"; supports_sampling = true }) ∷ [];
  base_url_env = some "URL";
  adapter = none;
  api_key_env = none;
}

abbrev pub sonnet_price : PricingConfig
sonnet_price = record { currency = "USD"; input_per_1m = whole 3; output_per_1m = whole 15 }

abbrev pub sample_document : ProvidersDocument
sample_document = record {
  providers = ("local", local_server) ∷ ("anthropic", anthropic) ∷ [];
  route_aliases = ("chat", record { provider = "local"; model = "llama" }) ∷ [];
  pricing = ("anthropic", ("sonnet", sonnet_price) ∷ []) ∷ [];
}

pub sample_document_valid : validate_providers sample_document ≡ ok sample_document
unfolding validate_providers pricing_fields model_prices_fields model_fields required_adapter_fields
    alias_fields check_alias check_pricing check_managed references_and_managed_prices_exist
    check_all
sample_document_valid = refl

unpriced_refused :
    validate_providers (record sample_document { pricing = [] })
    ≡ err (missing_prices "anthropic" ("sonnet" ∷ []))
unfolding validate_providers pricing_fields model_prices_fields model_fields required_adapter_fields
    alias_fields check_alias check_pricing check_managed references_and_managed_prices_exist
    check_all
unpriced_refused = refl

validate_providers-Priced_example : Priced sample_document "anthropic" "sonnet"
validate_providers-Priced_example =
    validate_providers-Priced sample_document sample_document "anthropic" "sonnet" anthropic sonnet
      sample_document_valid refl refl refl
