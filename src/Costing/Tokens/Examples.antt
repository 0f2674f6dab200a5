-- ===== src/Costing/Tokens/Examples.antt =====
-- costing/engine.py: the tokens of the sample run.
use ai_inference_cost_optimi.Prelude.{filter}
use ai_inference_cost_optimi.Costing.Engine.{served_by}
use ai_inference_cost_optimi.Costing.Engine.Examples.{sample_records}
use ai_inference_cost_optimi.Costing.Tokens.{
  billed_share, normalized_share, managed_provider_billed_tokens, private_normalized_tokens,
}
use ai_inference_cost_optimi.Costing.Tokens.Totals.{IsTotal, path_tokens-IsTotal}

path_tokens-IsTotal_example :
    IsTotal billed_share
      (filter (served_by "managed") sample_records)
      (managed_provider_billed_tokens sample_records)
    × IsTotal normalized_share
        (filter (served_by "private") sample_records)
        (private_normalized_tokens sample_records)
path_tokens-IsTotal_example = path_tokens-IsTotal sample_records
