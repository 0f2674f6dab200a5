-- ===== src/Benchmark/Request/Errors.antt =====
-- benchmark/harness.py: which error class the client records of a failed request.
use ai_inference_cost_optimi.Prelude.{
  ℕ, String, ◌≡◌, refl, Option, none, some, List, ◌++◌, arith, All,
}
use ai_inference_cost_optimi.Prelude.Result.{Result, ok, err}
use ai_inference_cost_optimi.Models.Enums.{
  ErrorClass, invalid_request, auth, rate_limited, timeout, provider_5xx, policy_denied,
  stream_started_failure, malformed_response, error_value, parse_error-error_value,
}
use ai_inference_cost_optimi.Models.Errors.{ProviderError}
use ai_inference_cost_optimi.Routing.Fallback.{
  Failure, provider_error, missing_provider, missing_adapter, unexpected,
}
use ai_inference_cost_optimi.Api.Response.{
  Response, Body, refusal, completion, events, internal_error, error_status, failure,
  provider_error_response,
}
use ai_inference_cost_optimi.Api.Respond.{Routed, items_events, final_events}
use ai_inference_cost_optimi.Benchmark.Harness.{
  error_class_of, StreamLine, other_line, stream_text, joined,
}
use ai_inference_cost_optimi.Benchmark.Harness.Lines.{
  Item, object_of, sent_lines, Closed, closing_code,
}
use ai_inference_cost_optimi.Benchmark.Harness.Stream.{stream_text-IsReceived, stream_text-other}
use ai_inference_cost_optimi.Benchmark.Request.{
  Payload, Seen, unread, streamed_body, plain_body, recorded_error,
}

-- The class that a status alone stands for.
pub status_class : ErrorClass → ErrorClass
status_class rate_limited = rate_limited
status_class timeout = timeout
status_class policy_denied = invalid_request
status_class _ = provider_5xx

error_class_of-error_value :
    (c : ErrorClass) → error_class_of (error_status c) (some (error_value c)) ≡ some c
unfolding error_class_of error_status
error_class_of-error_value invalid_request = rw (parse_error-error_value invalid_request) refl
error_class_of-error_value auth = rw (parse_error-error_value auth) refl
error_class_of-error_value rate_limited = rw (parse_error-error_value rate_limited) refl
error_class_of-error_value timeout = rw (parse_error-error_value timeout) refl
error_class_of-error_value provider_5xx = rw (parse_error-error_value provider_5xx) refl
error_class_of-error_value policy_denied = rw (parse_error-error_value policy_denied) refl
error_class_of-error_value stream_started_failure =
    rw (parse_error-error_value stream_started_failure) refl
error_class_of-error_value malformed_response = rw (parse_error-error_value malformed_response) refl

error_class_of-status :
    (c : ErrorClass) → error_class_of (error_status c) none ≡ some (status_class c)
unfolding error_class_of error_status status_class
error_class_of-status c = ground arith

-- The JSON object of a body that the gateway sends whole.
pub body_payload : Body → Option Payload
body_payload (refusal code) =
    some (record { error_code = some code; model = none; choice = none; usage = none })
body_payload (failure message code) =
    some (record { error_code = some code; model = none; choice = none; usage = none })
body_payload (completion c) = some (record {
  error_code = none;
  model = some c.model;
  choice = some (c.content, some c.finish_reason);
  usage = object_of c.usage;
})
body_payload (events es) = none
body_payload internal_error = none

-- The class that the client records of a response that came whole.
abbrev pub Records : Response → Option ErrorClass → Type 0
Records r c =
    (seen : Seen) × (plain_body r.status (body_payload r.body) ≡ ok seen)
    × (recorded_error r.status seen ≡ c)

-- Of a ProviderError that the gateway answers whole, the client records the very class: the status
-- stands for several classes, and the code of the body tells them apart.
pub plain_body-error_class :
    (e : ProviderError) (provider route : String)
    → Records (provider_error_response e provider route) (some e.error.error_class)
unfolding plain_body body_payload recorded_error provider_error_response error_status
plain_body-error_class e provider route =
    (unread _, whole e.error.error_class, error_class_of-error_value e.error.error_class)
  where
    whole :
        (c : ErrorClass)
        → plain_body (error_status c) (body_payload (failure e.error.message (error_value c)))
          ≡ ok (unread (body_payload (failure e.error.message (error_value c))))
    whole c = ground arith

-- The class of the error that a stream ends with.
abbrev pub closing_class : Result Failure (Unit {0}) → Option ErrorClass
closing_class (ok u) = none
closing_class (err (provider_error e)) = some e.error.error_class
closing_class (err _) = none

recorded_error-closing :
    (seen : Seen) (outcome : Result Failure (Unit {0}))
    → Closed outcome
    → seen.stream_error ≡ closing_code outcome
    → recorded_error 200 seen ≡ closing_class outcome
unfolding recorded_error error_class_of
recorded_error-closing seen (ok u) c e = rw (e, recorded_error) refl
recorded_error-closing seen (err (provider_error f)) c e =
    rw (e, parse_error-error_value f.error.error_class) refl
recorded_error-closing seen (err (missing_provider n)) c e = absurd c
recorded_error-closing seen (err (missing_adapter n)) c e = absurd c
recorded_error-closing seen (err unexpected) c e = absurd c

-- Of a stream that the gateway ends itself the client records no error if it succeeded, and the class
-- of the ProviderError that ended it, whatever its items and the clock.
pub streamed_body-error_class :
    (loads : String → Option Payload) (clock : ℕ → ℕ) (q : Routed) (items : List Item)
    (outcome : Result Failure (Unit {0}))
    → Closed outcome
    → recorded_error 200 (
        streamed_body loads 200
          (stream_text clock (sent_lines (items_events q items ++ final_events outcome))))
      ≡ closing_class outcome
unfolding recorded_error streamed_body
streamed_body-error_class loads clock q items outcome closed =
    recorded_error-closing
      (streamed_body loads 200
        (stream_text clock (sent_lines (items_events q items ++ final_events outcome))))
      outcome closed (stream_text-IsReceived clock q items outcome closed).error

-- Of a ProviderError that answers a streamed request before its first chunk, the client records only
-- what the status stands for, since no line of the answer's JSON body is data and the text that it
-- parses is empty: `rate_limited` and `timeout` are kept, `policy_denied` becomes `invalid_request`,
-- and any other class `provider_5xx`. (JSON has no empty document.)
pub streamed_body-status_class :
    (loads : String → Option Payload) (clock : ℕ → ℕ) (c : ErrorClass) (lines : List StreamLine)
    → loads "" ≡ none
    → All (λ line. line ≡ other_line) lines
    → recorded_error
        (error_status c)
        (streamed_body loads (error_status c) (stream_text clock lines))
      ≡ some (status_class c)
unfolding recorded_error streamed_body joined
streamed_body-status_class loads clock c lines empty h =
    rw (stream_text-other clock lines h, streamed_body, empty)
      (ground (arith, error_class_of-status c))
