-- ===== src/Benchmark/Measure.antt =====
-- benchmark/harness.py: the record of a measured request, with its cost on the managed path. The
-- evaluators are parameters.
pub mod Costs
pub mod Recorded
pub mod Examples
use text.Mathlib.Text.{starts_with}
use ai_inference_cost_optimi.Prelude.{
  ℕ, ◌-◌, String, Bool, true, false, Option, none, some, List, [], ◌∷◌, ltb, leb, if◌then◌else◌,
  or_default,
}
use ai_inference_cost_optimi.Prelude.Dict.{Dict, get}
use ai_inference_cost_optimi.Prelude.Result.{Result, ok, err, ◌>>=◌, ◌>>◌}
use ai_inference_cost_optimi.Decimal.{Decimal}
use ai_inference_cost_optimi.Models.Enums.{
  DataClass, QualityTier, ErrorClass, malformed_response, parse_error,
}
use ai_inference_cost_optimi.Models.Domain.{
  NormalizedUsage, DomainError, Money, unavailable_usage, validate_sources,
}
use ai_inference_cost_optimi.Config.Providers.{ProvidersDocument}
use ai_inference_cost_optimi.Config.Routing.{RoutingProviderConfig}
use ai_inference_cost_optimi.Config.Pricing.{price}
use ai_inference_cost_optimi.Api.Schemas.{filled}
use ai_inference_cost_optimi.Benchmark.Scenario.{
  Workload, classification, structured_extraction, generation, BenchmarkScenario,
}
use ai_inference_cost_optimi.Benchmark.Records.{
  TokenUsageRecord, BenchmarkRecord, RecordError, validate_record,
}
use ai_inference_cost_optimi.Benchmark.Harness.{
  error_class_of, Reading, nonempty, joined, usage_record, request_profile,
}
use ai_inference_cost_optimi.Benchmark.Request.{
  Payload, RequestFault, no_profile, invalid_usage, invalid_record, Seen, recorded_error, Target,
  Evaluators, task_quality,
}

-- A call that may raise, as a step of the request.
abbrev pub lift : {E A : Type 0} → (E → RequestFault) → Result E A → Result RequestFault A
lift f (ok a) = ok a
lift f (err e) = err (f e)

abbrev pub amount_of : Option Money → Option Decimal
amount_of none = none
amount_of (some m) = some m.amount

-- The usage that is priced.
abbrev pub normalized : TokenUsageRecord → NormalizedUsage
normalized u = record unavailable_usage {
  visible_output_tokens = u.visible_output_tokens;
  visible_output_tokens_source = u.source;
  billed_input_tokens = u.billed_input_tokens;
  billed_input_tokens_source = u.source;
  billed_output_tokens = u.billed_output_tokens;
  billed_output_tokens_source = u.source;
}

abbrev pub route_provider : Option RoutingProviderConfig → Option String
route_provider none = none
route_provider (some r) = r.provider

abbrev pub route_alias : Option RoutingProviderConfig → Option String
route_alias none = none
route_alias (some r) = r.model_alias

-- `_managed_cost`
pub managed_cost :
    ProvidersDocument
    → Dict RoutingProviderConfig
    → Option String
    → String
    → TokenUsageRecord
    → Result RequestFault (Option Decimal)
managed_cost doc routes none model_alias usage = ok none
managed_cost doc routes (some provider) model_alias usage = elim (starts_with provider "managed") [
  | false ↦ ok none
  | true ↦ do
    let route = get provider routes
    valid ← lift invalid_usage (validate_sources (normalized usage))
    ok (
        amount_of (
          price doc (filled (route_provider route) provider)
            (filled (route_alias route) model_alias) valid))
]

-- The status and the headers of an answer.
pub record Reply : Type 0 where
  pub status : ℕ
  pub provider : Option String
  pub route : Option String
  pub fallback_count : Option ℕ

-- The readings of the clocks: the start, the dispatch of the request, and the end.
pub record Times : Type 0 where
  pub started_at : ℕ
  pub dispatch : ℕ
  pub completed_at : ℕ

abbrev pub since : Option ℕ → ℕ → Option ℕ
since none dispatch = none
since (some t) dispatch = some (t - dispatch)

-- `payload.get("model", scenario.model) if payload else scenario.model`
abbrev pub answered_model : Option Payload → String → String
answered_model none fallback = fallback
answered_model (some p) fallback = or_default p.model fallback

abbrev pub profile_or_fault :
    Option (DataClass × QualityTier) → Result RequestFault (DataClass × QualityTier)
profile_or_fault none = err no_profile
profile_or_fault (some c) = ok c

-- `_request` from the answer on, for a measured request.
pub request_record :
    {O : Type 0}
    → Evaluators O
    → ProvidersDocument
    → Dict RoutingProviderConfig
    → BenchmarkScenario
    → String
    → Target O
    → ℕ
    → ℕ
    → Times
    → Reply
    → Seen
    → Result RequestFault BenchmarkRecord
unfolding managed_cost
request_record evaluators doc routes s item_id target repeat_index request_index times reply seen =
    do
      profile ← profile_or_fault (request_profile s request_index)
      let error = recorded_error reply.status seen
      correct ← task_quality evaluators s.workload error seen.output target
      let usage = usage_record seen.usage
      let alias = answered_model seen.payload s.model
      cost ← managed_cost doc routes reply.provider alias usage
      lift invalid_record (
          validate_record (record {
            repeat_index = repeat_index;
            workload = s.workload;
            dataset_item_id = item_id;
            data_class = profile.0;
            quality_tier = profile.1;
            route = reply.route;
            provider = reply.provider;
            model_alias = alias;
            started_at = times.started_at;
            completed_at = times.completed_at;
            ttft = since seen.first_content_at times.dispatch;
            usage = usage;
            http_status = reply.status;
            finish_reason = seen.finish_reason;
            error_class = error;
            fallback_count = or_default reply.fallback_count 0;
            task_correct = correct;
            managed_inference_cost_usd = cost;
          }))
