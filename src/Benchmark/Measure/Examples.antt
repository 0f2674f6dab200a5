-- ===== src/Benchmark/Measure/Examples.antt =====
-- benchmark/: a hybrid scenario, a stream that breaks, and the record of one request.
use ai_inference_cost_optimi.Prelude.{
  ℕ, ◌%◌, String, ◌≡◌, refl, true, Option, none, some, List, [], ◌∷◌, ◌++◌, length,
}
use ai_inference_cost_optimi.Prelude.Equality.{◌==◌, string_eq}
use ai_inference_cost_optimi.Prelude.Result.{Result, ok, err, check_all}
use ai_inference_cost_optimi.Models.Enums.{
  DataClass, public, internal, QualityTier, economy, balanced, provider_5xx, policy_denied,
}
use ai_inference_cost_optimi.Models.Errors.{ProviderError}
use ai_inference_cost_optimi.Routing.Fallback.{Failure, provider_error}
use ai_inference_cost_optimi.Routing.Samples.{overloaded, chunk_of, sample_usage}
use ai_inference_cost_optimi.Config.Providers.Examples.{sample_document}
use ai_inference_cost_optimi.Config.Routing.{managed, RoutingProviderConfig}
use ai_inference_cost_optimi.Prelude.Dict.{Dict}
use ai_inference_cost_optimi.Benchmark.Measure.Costs.{as_recorded, managed_cost-price}
use ai_inference_cost_optimi.Config.Pricing.{price}
use ai_inference_cost_optimi.Api.Schemas.{usage_payload}
use ai_inference_cost_optimi.Api.Response.{error_status, provider_error_response}
use ai_inference_cost_optimi.Api.Respond.{items_events, final_events}
use ai_inference_cost_optimi.Api.Samples.{sample_routed}
use ai_inference_cost_optimi.Benchmark.Scenario.{
  generation, hybrid, view_a, view_b, RequestProfile, BenchmarkScenario, validate_evidence_shape,
}
use ai_inference_cost_optimi.Benchmark.Harness.{other_line, stream_text, request_profile}
use ai_inference_cost_optimi.Benchmark.Harness.Lines.{Item, sent_lines, newer_usage}
use ai_inference_cost_optimi.Benchmark.Harness.Profile.{choices, get_elem?, request_profile-cycle}
use ai_inference_cost_optimi.Benchmark.Harness.Stream.{IsReceived, stream_text-IsReceived}
use ai_inference_cost_optimi.Benchmark.Request.{
  Payload, Evaluators, Seen, streamed_body, recorded_error,
}
use ai_inference_cost_optimi.Benchmark.Request.Errors.{
  Records, status_class, plain_body-error_class, streamed_body-status_class,
}
use ai_inference_cost_optimi.Benchmark.Measure.{Times, Reply, amount_of, managed_cost}

abbrev pub two_to_one : List RequestProfile
two_to_one =
    record { data_class = public; quality_tier = economy; weight = 2 }
    ∷ record { data_class = internal; quality_tier = balanced; weight = 1 }
    ∷ []

abbrev pub sample_scenario : BenchmarkScenario
sample_scenario = record {
  treatment = "t3-hybrid";
  workload = generation;
  provider_mode = hybrid;
  stream = true;
  requests = 30;
  data_class = public;
  quality_tier = economy;
  slo_cell = "WL-03/economy";
  model = "chat";
  publishable = true;
  economic_views = view_a ∷ view_b ∷ [];
  request_mix = two_to_one;
}

pub sample_scenario_valid : validate_evidence_shape sample_scenario ≡ ok sample_scenario
unfolding validate_evidence_shape check_all
sample_scenario_valid = refl

request_profile-cycle_example :
    (c : DataClass × QualityTier) × (request_profile sample_scenario 5 ≡ some c)
    × (get_elem? (choices sample_scenario) (5 % length (choices sample_scenario)) ≡ some c)
request_profile-cycle_example = request_profile-cycle sample_scenario 5 sample_scenario_valid

-- The sixth request, the last one of the second round, has the second profile.
sixth_profile : request_profile sample_scenario 5 ≡ some (internal, balanced)
unfolding request_profile
sixth_profile = refl

abbrev sample_items : List Item
sample_items = ("cloud", 0, chunk_of "cloud") ∷ []

abbrev sample_error : ProviderError
sample_error = record { error = overloaded; attempts = [] }

abbrev broken_off : Result Failure (Unit {0})
broken_off = err (provider_error sample_error)

stream_text-IsReceived_example :
    IsReceived
      (stream_text
        (λ i. i)
        (sent_lines (items_events sample_routed sample_items ++ final_events broken_off)))
      sample_items
      broken_off
stream_text-IsReceived_example =
    stream_text-IsReceived (λ i. i) sample_routed sample_items broken_off tt

plain_body-error_class_example :
    Records (provider_error_response sample_error "cloud" "default") (some provider_5xx)
plain_body-error_class_example = plain_body-error_class sample_error "cloud" "default"

-- A parser that reads no object.
abbrev reads_none : String → Option Payload
reads_none text = none

-- A refusal by policy, answered as one line of JSON.
streamed_body-status_class_example :
    recorded_error (error_status policy_denied) (
      streamed_body reads_none
        (error_status policy_denied)
        (stream_text (λ i. i) (other_line ∷ [])))
    ≡ some (status_class policy_denied)
streamed_body-status_class_example =
    streamed_body-status_class reads_none (λ i. i) policy_denied (other_line ∷ []) refl (refl, tt)

abbrev sample_routes : Dict RoutingProviderConfig
sample_routes =
    (
      "managed-sonnet",
      record {
        type = managed;
        external = true;
        provider = some "anthropic";
        model_alias = some "sonnet";
      },
    )
    ∷ []

managed_cost-price_example :
    managed_cost sample_document sample_routes
      (some "managed-sonnet")
      "chat"
      (as_recorded sample_usage)
    ≡ ok (amount_of (price sample_document "anthropic" "sonnet" sample_usage))
managed_cost-price_example =
    managed_cost-price sample_document sample_routes "managed-sonnet" "chat" sample_usage refl

abbrev sample_evaluators : Evaluators ℕ
sample_evaluators = record { classify = λ output t. output == t; extract = λ output o. true }

abbrev sample_times : Times
sample_times = record { started_at = 0; dispatch = 1; completed_at = 9 }

abbrev sample_reply : Reply
sample_reply = record {
  status = 200;
  provider = some "managed-sonnet";
  route = some "default";
  fallback_count = some 0;
}

abbrev sample_seen : Seen
sample_seen = record {
  output = "hello";
  usage = newer_usage (usage_payload sample_usage) [];
  payload = none;
  stream_error = none;
  first_content_at = some 4;
  finish_reason = some "stop";
}
