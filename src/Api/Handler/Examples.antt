-- ===== src/Api/Handler/Examples.antt =====
-- api/routes.py: one request through the handler, and the history of one that fell back.
use ai_inference_cost_optimi.Prelude.{ℕ, ◌≡◌, refl, [], ◌∷◌}
use ai_inference_cost_optimi.Prelude.Text.{take_text, after_prefix}
use ai_inference_cost_optimi.Prelude.Result.{ok}
use ai_inference_cost_optimi.Models.Enums.{provider_5xx, parse_class, parse_tier}
use ai_inference_cost_optimi.Config.Routing.Samples.{sample_policy}
use ai_inference_cost_optimi.Security.Auth.{authenticate}
use ai_inference_cost_optimi.Routing.Fallback.{FallbackResult, succeeded, failed}
use ai_inference_cost_optimi.Routing.Fallback.Report.{IsAnswered}
use ai_inference_cost_optimi.Routing.Samples.{overloaded, result_of, hanging_adapters, sample_start}
use ai_inference_cost_optimi.Api.Schemas.{to_canonical}
use ai_inference_cost_optimi.Api.Schemas.Examples.{sample_wire_valid}
use ai_inference_cost_optimi.Api.Record.{attempt_history}
use ai_inference_cost_optimi.Api.Record.Attempts.{
  count, is_fallback, is_provider_error, attempt_history_counts,
}
use ai_inference_cost_optimi.Api.Respond.Accounting.{CountedOnce}
use ai_inference_cost_optimi.Api.Handler.{
  Gateway, bearer_of, identify, parse_metadata, parse_body, request_id_of, admit, chat_completions,
}
use ai_inference_cost_optimi.Api.Handler.Guards.{
  Guarded, admit-Guarded, chat_completions-CountedOnce,
}
use ai_inference_cost_optimi.Api.Handler.Privacy.{chat_completions_restricted-Agree}
use ai_inference_cost_optimi.Routing.Fallback.Examples.{sample-Agree}
use ai_inference_cost_optimi.Api.Samples.{sample_gateway, sample_http, sample_admitted}

sample_admit : admit sample_gateway sample_http ≡ ok sample_admitted
unfolding admit bearer_of identify parse_metadata parse_body request_id_of authenticate to_canonical
    after_prefix parse_class parse_tier take_text
sample_admit = rw sample_wire_valid refl

admit-Guarded_example : Guarded sample_gateway sample_http sample_admitted
admit-Guarded_example = admit-Guarded sample_gateway sample_http sample_admit

chat_completions-CountedOnce_example :
    CountedOnce (chat_completions sample_gateway sample_http sample_start)
chat_completions-CountedOnce_example =
    chat_completions-CountedOnce sample_gateway sample_http sample_start sample_admit

abbrev fell_back : FallbackResult
fell_back = record {
  result = result_of "cloud";
  provider = "cloud";
  fallback_count = 1;
  attempts = failed "local" overloaded ∷ succeeded "cloud" ∷ [];
}

fell_back-IsAnswered : IsAnswered sample_policy 0 ("local" ∷ "cloud" ∷ []) [] fell_back
unfolding failed
fell_back-IsAnswered = record {
  before = "local" ∷ [];
  later = [];
  log = failed "local" overloaded ∷ [];
  split = refl;
  tried = (refl, (provider_5xx, refl, refl), tt);
  logged = refl;
  counted = refl;
}

attempt_history_counts_example :
    (count is_fallback (attempt_history fell_back.attempts) ≡ 1)
    × (count is_provider_error (attempt_history fell_back.attempts) ≡ 1)
attempt_history_counts_example =
    attempt_history_counts sample_policy ("local" ∷ "cloud" ∷ []) fell_back fell_back-IsAnswered

abbrev hanging_gateway : Gateway ℕ
hanging_gateway = record sample_gateway { adapters = hanging_adapters }

chat_completions_restricted-Agree_example :
    chat_completions sample_gateway sample_http sample_start
    ≡ chat_completions hanging_gateway sample_http sample_start
chat_completions_restricted-Agree_example =
    chat_completions_restricted-Agree sample_gateway hanging_adapters refl sample-Agree refl
      sample_http sample_start refl
