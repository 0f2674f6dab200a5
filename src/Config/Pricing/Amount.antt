-- ===== src/Config/Pricing/Amount.antt =====
-- config/pricing.py: when a request has a cost, and which.
use ai_inference_cost_optimi.Prelude.{ℕ, String, ◌≡◌, refl, true, some, arith}
use ai_inference_cost_optimi.Prelude.Dict.{Dict, get}
use ai_inference_cost_optimi.Prelude.Result.{ok}
use ai_inference_cost_optimi.Decimal.{whole, ◌≈◌, ◌+ᵈ◌, ◌*ᵈ◌, over}
use ai_inference_cost_optimi.Decimal.Order.{over-*ᵈ}
use ai_inference_cost_optimi.Models.Domain.{NormalizedUsage, Money}
use ai_inference_cost_optimi.Config.Providers.{
  PricingConfig, ProviderModelConfig, ProviderConfig, ProvidersDocument, is_managed,
  validate_providers,
}
use ai_inference_cost_optimi.Config.Providers.Prices.{validate_providers-Priced}
use ai_inference_cost_optimi.Config.Pricing.{million, price}

-- A million times the amount is the tokens at their prices, in the currency of the price.
abbrev pub Charged : PricingConfig → ℕ → ℕ → Money → Type 0
Charged pricing input output money =
    (money.amount *ᵈ whole million
      ≈ whole input *ᵈ pricing.input_per_1m +ᵈ whole output *ᵈ pricing.output_per_1m)
    × (money.currency ≡ pricing.currency)

price_found :
    (doc : ProvidersDocument) (provider model : String) (usage : NormalizedUsage)
    (prices : Dict PricingConfig) (pricing : PricingConfig) (input output : ℕ)
    → get provider doc.pricing ≡ some prices
    → get model prices ≡ some pricing
    → usage.billed_input_tokens ≡ some input
    → usage.billed_output_tokens ≡ some output
    → (money : Money) × (price doc provider model usage ≡ some money)
      × Charged pricing input output money
unfolding price
price_found doc provider model usage prices pricing input output p m i o = (
  record {
    amount =
        over (whole input *ᵈ pricing.input_per_1m +ᵈ whole output *ᵈ pricing.output_per_1m) million;
    currency = pricing.currency;
  },
  rw (p, m, i, o),
  (over-*ᵈ _ million, refl),
)

-- The usage that a price needs.
abbrev pub Reported : NormalizedUsage → ℕ → ℕ → Type 0
Reported usage input output =
    (usage.billed_input_tokens ≡ some input) × (usage.billed_output_tokens ≡ some output)

-- Under a validated document every request to a model of a managed provider that reports its billed
-- tokens has a cost: exactly the billed tokens at the prices that the document lists for the provider
-- and the model.
pub price_managed :
    (doc doc' : ProvidersDocument) (name model : String) (p : ProviderConfig)
    (m : ProviderModelConfig) (usage : NormalizedUsage) (input output : ℕ)
    → validate_providers doc ≡ ok doc'
    → get name doc.providers ≡ some p
    → is_managed p.kind ≡ true
    → get model p.models ≡ some m
    → Reported usage input output
    → (prices : Dict PricingConfig) × (pricing : PricingConfig) × (money : Money) × (get name
          doc.pricing
        ≡ some prices)
      × (get model prices ≡ some pricing)
      × (price doc name model usage ≡ some money)
      × Charged pricing input output money
price_managed doc doc' name model p m usage input output valid found managed offers (i, o) =
    let (prices, pricing, by_provider, by_model) =
      validate_providers-Priced doc doc' name model p m valid found managed offers in
    let (money, priced, charged) =
      price_found doc name model usage prices pricing input output by_provider by_model i o in
    (prices, pricing, money, by_provider, by_model, priced, charged)

-- Tokens that the provider did not report are never invented: there is no cost without them.
pub price_unreported :
    (doc : ProvidersDocument) (name model : String) (usage : NormalizedUsage) (money : Money)
    → price doc name model usage ≡ some money
    → (input : ℕ) × (output : ℕ) × Reported usage input output
unfolding price
price_unreported doc name model usage money h = ground arith
