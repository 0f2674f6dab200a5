-- ===== src/Config/Pricing.antt =====
-- config/pricing.py: the cost of one request from the prices of the configuration.
pub mod Amount
mod Examples
use ai_inference_cost_optimi.Prelude.{ℕ, ◌*◌, String, Option, none, some}
use ai_inference_cost_optimi.Prelude.Dict.{get}
use ai_inference_cost_optimi.Decimal.{Decimal, whole, ◌+ᵈ◌, ◌*ᵈ◌, over}
use ai_inference_cost_optimi.Models.Domain.{NormalizedUsage, Money}
use ai_inference_cost_optimi.Config.Providers.{PricingConfig, ProvidersDocument}

abbrev pub million : ℕ
million = 1_000_000

infixl 5 ◌>>=◌
abbrev ◌>>=◌ : {A B : Type 0} → Option A → (A → Option B) → Option B
none >>= f = none
some a >>= f = f a

-- `PricingEngine.price`; each `return None` is a lookup that finds nothing.
unfoldable pub price : ProvidersDocument → String → String → NormalizedUsage → Option Money
price doc provider model_alias usage = do
  model_prices ← get provider doc.pricing
  pricing ← get model_alias model_prices
  input ← usage.billed_input_tokens
  output ← usage.billed_output_tokens
  some (record {
    amount =
        over (whole input *ᵈ pricing.input_per_1m +ᵈ whole output *ᵈ pricing.output_per_1m) million;
    currency = pricing.currency;
  })
