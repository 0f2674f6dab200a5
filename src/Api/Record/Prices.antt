-- ===== src/Api/Record/Prices.antt =====
-- api/routes.py: what is recorded of a usage depends on the adapters' prices alone.
use ai_inference_cost_optimi.Prelude.{String, ◌≡◌, ap, ◌++◌}
use ai_inference_cost_optimi.Models.Domain.{NormalizedUsage}
use ai_inference_cost_optimi.Adapters.{Adapters}
use ai_inference_cost_optimi.Api.Record.{
  Labels, tokens_entry, cost_entry, input_tokens, output_tokens, managed_cost, result_metrics,
}

module _ {W : Type 0} (a b : Adapters W) (priced : a.price ≡ b.price) where
  pub result_metrics-Agree :
      (provider : String) (l : Labels) (u : NormalizedUsage)
      → result_metrics a provider l u ≡ result_metrics b provider l u
  unfolding result_metrics
  result_metrics-Agree provider l u =
      ap
        (λ price.
          tokens_entry u.billed_input_tokens (input_tokens provider l.model_alias l.team)
          ++ (tokens_entry u.billed_output_tokens (output_tokens provider l.model_alias l.team)
              ++ cost_entry (price provider u l.model_alias)
                  (managed_cost provider l.model_alias l.team)))
        priced
