-- ===== src/Benchmark/Request.antt =====
-- benchmark/harness.py: one request of a run, from the answer to its record. The HTTP client, the JSON
-- parser and the evaluators of outputs are parameters.
pub mod Errors
use text.Mathlib.Text.{starts_with}
use ai_inference_cost_optimi.Prelude.{
  ℕ, ◌-◌, String, Bool, true, false, Option, none, some, List, [], ◌∷◌, ltb, leb, if◌then◌else◌,
  or_default,
}
use ai_inference_cost_optimi.Prelude.Dict.{Dict, get}
use ai_inference_cost_optimi.Prelude.Result.{Result, ok, err, ◌>>=◌, ◌>>◌}
use ai_inference_cost_optimi.Decimal.{Decimal}
use ai_inference_cost_optimi.Models.Enums.{
  DataClass, QualityTier, ErrorClass, malformed_response, parse_error,
}
use ai_inference_cost_optimi.Models.Domain.{
  NormalizedUsage, DomainError, Money, unavailable_usage, validate_sources,
}
use ai_inference_cost_optimi.Config.Providers.{ProvidersDocument}
use ai_inference_cost_optimi.Config.Routing.{RoutingProviderConfig}
use ai_inference_cost_optimi.Config.Pricing.{price}
use ai_inference_cost_optimi.Api.Schemas.{filled}
use ai_inference_cost_optimi.Benchmark.Scenario.{
  Workload, classification, structured_extraction, generation, BenchmarkScenario,
}
use ai_inference_cost_optimi.Benchmark.Records.{
  TokenUsageRecord, BenchmarkRecord, RecordError, validate_record,
}
use ai_inference_cost_optimi.Benchmark.Harness.{
  error_class_of, Reading, nonempty, joined, usage_record, request_profile,
}

-- A body that is a JSON object: the code of its error object, its model, the content and the finish
-- reason of its first choice, and its usage.
pub record Payload : Type 0 where
  pub error_code : Option String
  pub model : Option String
  pub choice : Option (String × Option String)
  pub usage : Option (Dict ℕ)

-- The exceptions of a request that the client does not catch.
pub data RequestFault : Type 0 where
  no_choice : RequestFault
  no_profile : RequestFault
  target_mismatch : RequestFault
  invalid_usage : DomainError → RequestFault
  invalid_record : RecordError → RequestFault

-- What the client has of an answer, whole or streamed.
pub record Seen : Type 0 where
  pub output : String
  pub usage : Dict ℕ
  pub payload : Option Payload
  pub stream_error : Option String
  pub first_content_at : Option ℕ
  pub finish_reason : Option String

-- A streamed answer: `loads` is `json.loads`, none where it raises or has no object.
pub streamed_body : (String → Option Payload) → ℕ → Reading → Seen
streamed_body loads status r = record {
  output = joined r.output;
  usage = r.usage;
  payload = if leb 300 status then loads (joined r.output) else none;
  stream_error = r.stream_error;
  first_content_at = r.first_content_at;
  finish_reason = r.finish_reason;
}

-- An answer of which only the payload was read.
abbrev pub unread : Option Payload → Seen
unread payload = record {
  output = "";
  usage = [];
  payload = payload;
  stream_error = none;
  first_content_at = none;
  finish_reason = none;
}

-- A whole answer.
pub plain_body : ℕ → Option Payload → Result RequestFault Seen
plain_body status none = ok (unread none)
plain_body status (some p) = elim (ltb status 300) [
  | false ↦ ok (unread (some p))
  | true ↦ elim p.choice [
    | none ↦ err no_choice
    | some (content, finish) ↦ ok (record {
      output = content;
      usage = or_default p.usage [];
      payload = some p;
      stream_error = none;
      first_content_at = none;
      finish_reason = if nonempty finish then finish else none;
    })
  ]
]

abbrev pub payload_code : Option Payload → Option String
payload_code none = none
payload_code (some p) = p.error_code

-- `_error_class`, and the code of a stream over it.
unfoldable pub recorded_error : ℕ → Seen → Option ErrorClass
recorded_error status seen = elim seen.stream_error [
  | none ↦ error_class_of status (payload_code seen.payload)
  | some text ↦ some (or_default (parse_error text) malformed_response)
]

-- The target of a dataset's item, and the evaluators, with the labels of the dataset.
pub data Target (O : Type 0) : Type 0 where
  unlabelled : Target O
  label_target : String → Target O
  fields_target : O → Target O

pub record Evaluators (O : Type 0) : Type 0 where
  pub classify : String → String → Bool
  pub extract : String → O → Bool

-- `_quality`: whether the task is correct.
unfoldable pub quality :
    {O : Type 0} → Evaluators O → Workload → String → Target O → Result RequestFault (Option Bool)
quality e generation output target = ok none
quality e classification output (label_target expected) = ok (some (e.classify output expected))
quality e structured_extraction output (fields_target expected) =
    ok (some (e.extract output expected))
quality e _ output target = err target_mismatch

-- A request that failed is not correct.
unfoldable pub failed_quality : Workload → Option Bool
failed_quality generation = none
failed_quality _ = some false

unfoldable pub task_quality :
    {O : Type 0}
    → Evaluators O
    → Workload
    → Option ErrorClass
    → String
    → Target O
    → Result RequestFault (Option Bool)
unfolding quality failed_quality
task_quality e w none output target = quality e w output target
task_quality e w (some c) output target = ok (failed_quality w)
