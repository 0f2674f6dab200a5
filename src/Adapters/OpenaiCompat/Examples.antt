-- ===== src/Adapters/OpenaiCompat/Examples.antt =====
-- adapters/openai_compat.py: a stream that the server marks as done, and a usage with reasoning.
use ai_inference_cost_optimi.Prelude.{◌≡◌, refl, none, some, List, [], ◌∷◌}
use ai_inference_cost_optimi.Prelude.Result.{err}
use ai_inference_cost_optimi.Adapters.OpenaiCompat.{
  below_zero, tokens, UsageObject, unexpected_exception, usage_from_payload, Line, no_data,
  done_mark, event, closed, compat_stream,
}
use ai_inference_cost_optimi.Adapters.OpenaiCompat.Usage.{Counted, usage_from_payload-Counted}
use ai_inference_cost_optimi.Adapters.OpenaiCompat.Lines.{IsSent, compat_stream-IsSent}

abbrev with_reasoning : UsageObject
with_reasoning = record {
  prompt_tokens = tokens 12;
  completion_tokens = tokens 40;
  reasoning_tokens = tokens 30;
}

abbrev sample_lines : List Line
sample_lines =
    event none (some (record { text = some "hel"; finish_reason = none }))
    ∷ no_data
    ∷ event none (some (record { text = some "lo"; finish_reason = some "length" }))
    ∷ event (some (some with_reasoning)) none
    ∷ done_mark
    ∷ []

usage_from_payload-Counted_example :
    Counted (tokens 12) (tokens 40) (usage_from_payload (some with_reasoning))
usage_from_payload-Counted_example = usage_from_payload-Counted with_reasoning

compat_stream-IsSent_example :
    IsSent 200 sample_lines closed (compat_stream "local" "llama" 200 none sample_lines closed)
compat_stream-IsSent_example = compat_stream-IsSent "local" "llama" 200 none sample_lines closed

negative_count :
    usage_from_payload (some (record with_reasoning { prompt_tokens = below_zero }))
    ≡ err unexpected_exception
unfolding usage_from_payload
negative_count = refl
