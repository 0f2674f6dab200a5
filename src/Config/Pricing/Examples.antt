-- ===== src/Config/Pricing/Examples.antt =====
-- config/pricing.py: the cost of a request to the managed provider.
use ai_inference_cost_optimi.Prelude.{◌≡◌, refl, some}
use ai_inference_cost_optimi.Prelude.Dict.{Dict, get}
use ai_inference_cost_optimi.Decimal.{decimal, ◌+ᵈ◌, ◌*ᵈ◌, over}
use ai_inference_cost_optimi.Models.Domain.{NormalizedUsage, Money, unavailable_usage}
use ai_inference_cost_optimi.Config.Providers.{PricingConfig}
use ai_inference_cost_optimi.Config.Providers.Examples.{
  sonnet, anthropic, sample_document, sample_document_valid,
}
use ai_inference_cost_optimi.Config.Pricing.{price}
use ai_inference_cost_optimi.Config.Pricing.Amount.{Charged, price_managed}

abbrev billed : NormalizedUsage
billed = record unavailable_usage {
  billed_input_tokens = some 1000;
  billed_output_tokens = some 200;
}

price_managed_example :
    (prices : Dict PricingConfig) × (pricing : PricingConfig) × (money : Money) × (get "anthropic"
        sample_document.pricing
      ≡ some prices)
    × (get "sonnet" prices ≡ some pricing)
    × (price sample_document "anthropic" "sonnet" billed ≡ some money)
    × Charged pricing 1000 200 money
price_managed_example =
    price_managed sample_document sample_document "anthropic" "sonnet" anthropic sonnet billed 1000
      200 sample_document_valid refl refl refl (refl, refl)

-- 1000 tokens at 3 and 200 at 15 dollars for a million.
abbrev six_mills : Money
six_mills = record { amount = decimal 6000 1_000_000; currency = "USD" }

price_billed : price sample_document "anthropic" "sonnet" billed ≡ some six_mills
unfolding price ◌+ᵈ◌ ◌*ᵈ◌ over
price_billed = refl
