-- ===== src/Models/Errors.antt =====
-- models/errors.py. Times are whole microseconds, the resolution of the gateway's clock.
pub mod Laws
mod Examples
use ai_inference_cost_optimi.Prelude.{
  ℕ, ◌≤◌, ◌<◌, String, ◌≡◌, refl, Bool, true, false, ◌&&◌, ◌||◌, Option, none, some, List, [], ◌∷◌,
  arith, ltb, leb, eqb, if◌then◌else◌,
}
use ai_inference_cost_optimi.Prelude.Result.{Result, ok, err, ◌>>=◌}
use ai_inference_cost_optimi.Models.Enums.{
  ErrorClass, invalid_request, auth, rate_limited, timeout, provider_5xx, policy_denied,
  stream_started_failure, malformed_response,
}

-- `_ELIGIBILITY`: may the attempt be retried, and may another provider be tried.
pub eligibility : ErrorClass → Bool × Bool
eligibility invalid_request = (false, false)
eligibility auth = (false, false)
eligibility rate_limited = (true, true)
eligibility timeout = (true, true)
eligibility provider_5xx = (true, true)
eligibility policy_denied = (false, false)
eligibility stream_started_failure = (false, false)
eligibility malformed_response = (false, false)

pub record NormalizedError : Type 0 where
  pub error_class : ErrorClass
  pub message : String
  pub http_status : Option ℕ
  pub retry_eligible : Bool
  pub fallback_eligible : Bool
  pub retry_after_seconds : Option ℕ

-- Every caller passes a message that is not empty and, if any, a status of an HTTP error.
unfoldable pub normalized_error : ErrorClass → String → Option ℕ → Option ℕ → NormalizedError
unfolding eligibility
normalized_error error_class message http_status retry_after_seconds =
    let (retry_eligible, fallback_eligible) = eligibility error_class in
    record {
      error_class = error_class;
      message = message;
      http_status = http_status;
      retry_eligible = retry_eligible;
      fallback_eligible = fallback_eligible;
      retry_after_seconds = retry_after_seconds;
    }

pub data StatusError : Type 0 where
  unsupported_status : ℕ → StatusError

-- The chain of tests on the status; no other status is the status of an error.
http_error_class : ℕ → Result StatusError ErrorClass
http_error_class status =
    if eqb status 408
    then ok timeout
    else if eqb status 429
    then ok rate_limited
    else if eqb status 401 || eqb status 403
    then ok auth
    else if leb 400 status && ltb status 500
    then ok invalid_request
    else if leb 500 status && ltb status 600
    then ok provider_5xx
    else err (unsupported_status status)

unfoldable pub normalize_http_error : ℕ → String → Option ℕ → Result StatusError NormalizedError
unfolding normalized_error http_error_class
normalize_http_error status message retry_after_seconds = do
  error_class ← http_error_class status
  ok (normalized_error error_class message (some status) retry_after_seconds)

-- One provider attempt within a routed request.
pub record AttemptOutcome : Type 0 where
  pub provider : String
  pub error_class : Option ErrorClass
  pub retry_after_seconds : Option ℕ

-- Raised by adapters, and again by the fallback executor with the history of the attempts.
pub record ProviderError : Type 0 where
  pub error : NormalizedError
  pub attempts : List AttemptOutcome
