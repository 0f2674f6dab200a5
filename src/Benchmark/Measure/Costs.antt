-- ===== src/Benchmark/Measure/Costs.antt =====
-- benchmark/harness.py and config/pricing.py: the client prices a request as the gateway does.
use text.Mathlib.Text.{starts_with}
use ai_inference_cost_optimi.Prelude.{
  String, ◌≡◌, refl, sym, ◌∙◌, ◌⊎◌, true, inl, inr, none, some, [], arith, Option-cases,
}
use ai_inference_cost_optimi.Prelude.Dict.{Dict, get}
use ai_inference_cost_optimi.Prelude.Result.{ok}
use ai_inference_cost_optimi.Models.Domain.{NormalizedUsage, validate_sources}
use ai_inference_cost_optimi.Config.Providers.{ProvidersDocument}
use ai_inference_cost_optimi.Config.Routing.{RoutingProviderConfig}
use ai_inference_cost_optimi.Config.Pricing.{price}
use ai_inference_cost_optimi.Api.Schemas.{filled, usage_payload}
use ai_inference_cost_optimi.Benchmark.Records.{TokenUsageRecord}
use ai_inference_cost_optimi.Benchmark.Harness.{usage_record}
use ai_inference_cost_optimi.Benchmark.Harness.Lines.{newer_usage}
use ai_inference_cost_optimi.Benchmark.Measure.{
  amount_of, lift, normalized, route_provider, route_alias, managed_cost,
}

-- The usage that the client has of an answer with this usage.
abbrev pub as_recorded : NormalizedUsage → TokenUsageRecord
as_recorded u = usage_record (newer_usage (usage_payload u) [])

price_billed :
    (doc : ProvidersDocument) (p a : String) (u v : NormalizedUsage)
    → u.billed_input_tokens ≡ v.billed_input_tokens
    → u.billed_output_tokens ≡ v.billed_output_tokens
    → price doc p a u ≡ price doc p a v
unfolding price
price_billed doc p a u v e f = rw (e, f) refl

price_unbilled :
    (doc : ProvidersDocument) (p a : String) (u : NormalizedUsage)
    → (u.billed_input_tokens ≡ none) ⊎ (u.billed_output_tokens ≡ none)
    → price doc p a u ≡ none
unfolding price
price_unbilled doc p a u h = ground arith

-- The usage that the client keeps passes the validation of what is priced, and has the same price,
-- whether both billed counts are there or not.
pub as_recorded-valid :
    (u : NormalizedUsage)
    → validate_sources (normalized (as_recorded u)) ≡ ok (normalized (as_recorded u))
unfolding validate_sources usage_record usage_payload
as_recorded-valid u = elim (Option-cases u.billed_input_tokens) [
  | inl e ↦ rw e refl
  | inr (i, e) ↦ elim (Option-cases u.billed_output_tokens) [
    | inl f ↦ rw (e, f) refl
    | inr (o, f) ↦ rw (e, f) refl
  ]
]

as_recorded-price :
    (doc : ProvidersDocument) (p a : String) (u : NormalizedUsage)
    → price doc p a (normalized (as_recorded u)) ≡ price doc p a u
unfolding usage_record usage_payload
as_recorded-price doc p a u = elim (Option-cases u.billed_input_tokens) [
  | inl e ↦
      price_unbilled doc p a (normalized (as_recorded u)) (inl (rw e refl))
      ∙ sym (price_unbilled doc p a u (inl e))
  | inr (i, e) ↦ elim (Option-cases u.billed_output_tokens) [
    | inl f ↦
        price_unbilled doc p a (normalized (as_recorded u)) (inl (rw (e, f) refl))
        ∙ sym (price_unbilled doc p a u (inr f))
    | inr (o, f) ↦
        price_billed doc p a (normalized (as_recorded u)) u (rw (e, f) refl) (rw (e, f) refl)
  ]
]

-- The cost that the client records of an answer on a managed route is the gateway's own price of the
-- usage that the provider reported, at the provider and the model that the route names: reading the
-- usage back from the answer neither loses nor adds anything that the price depends on. Without
-- both billed counts there is no cost.
pub managed_cost-price :
    (doc : ProvidersDocument) (routes : Dict RoutingProviderConfig) (name model_alias : String)
    (u : NormalizedUsage)
    → starts_with name "managed" ≡ true
    → managed_cost doc routes (some name) model_alias (as_recorded u)
      ≡ ok (
          amount_of (
            price doc
              (filled (route_provider (get name routes)) name)
              (filled (route_alias (get name routes)) model_alias)
              u))
unfolding managed_cost
managed_cost-price doc routes name model_alias u h =
    rw (h, managed_cost)
      (rw (as_recorded-valid u, lift)
        (rw
          (as_recorded-price doc (filled (route_provider (get name routes)) name)
            (filled (route_alias (get name routes)) model_alias) u)
          refl))
