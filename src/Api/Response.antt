-- ===== src/Api/Response.antt =====
-- api/routes.py: the response of the gateway, and the one of a provider's error.
use ai_inference_cost_optimi.Prelude.{ℕ, ◌-◌, ◌/◌, String, Option, none, some, List, length}
use ai_inference_cost_optimi.Prelude.Equality.{string_eq}
use ai_inference_cost_optimi.Models.Enums.{
  ErrorClass, invalid_request, auth, rate_limited, timeout, provider_5xx, policy_denied,
  stream_started_failure, malformed_response, error_value,
}
use ai_inference_cost_optimi.Models.Errors.{ProviderError}
use ai_inference_cost_optimi.Api.Schemas.{CompletionPayload, ChunkPayload}

-- `_ERROR_STATUS`
unfoldable pub error_status : ErrorClass → ℕ
error_status invalid_request = 502
error_status auth = 502
error_status rate_limited = 429
error_status timeout = 504
error_status provider_5xx = 502
error_status policy_denied = 403
error_status stream_started_failure = 502
error_status malformed_response = 502

-- The server-sent events of a stream.
pub data Event : Type 0 where
  chunk_event : ChunkPayload → Event
  error_event : String → String → Event
  done_event : Event

-- A refusal has a code of its own; a provider's error has its class. An exception that the handler
-- does not catch ends in the framework's response, or cuts the stream off.
pub data Body : Type 0 where
  refusal : String → Body
  failure : String → String → Body
  completion : CompletionPayload → Body
  events : List Event → Body
  internal_error : Body

-- The headers X-Gateway-Provider, -Route, -Fallback-Count and Retry-After.
pub record Headers : Type 0 where
  pub provider : Option String
  pub route : Option String
  pub fallback_count : Option ℕ
  pub retry_after : Option ℕ

pub record Response : Type 0 where
  pub status : ℕ
  pub headers : Headers
  pub body : Body

abbrev pub no_headers : Headers
no_headers = record { provider = none; route = none; fallback_count = none; retry_after = none }

abbrev pub crash : Response
crash = record { status = 500; headers = no_headers; body = internal_error }

-- `int(seconds)`
abbrev pub whole_seconds : Option ℕ → Option ℕ
whole_seconds none = none
whole_seconds (some t) = some (t / 1_000_000)

-- `_provider_error_response`
unfoldable pub provider_error_response : ProviderError → String → String → Response
provider_error_response e provider route = record {
  status = error_status e.error.error_class;
  headers = record {
    provider = some provider;
    route = some route;
    fallback_count = some (length e.attempts - 1);
    retry_after = whole_seconds e.error.retry_after_seconds;
  };
  body = failure e.error.message (error_value e.error.error_class);
}
