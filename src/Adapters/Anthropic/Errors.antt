-- ===== src/Adapters/Anthropic/Errors.antt =====
-- adapters/anthropic_managed.py: which failures of the client library lead to another attempt.
use mathlib.Core.Bool.{false≢true}
use ai_inference_cost_optimi.Prelude.{◌≤◌, ◌<◌, ◌≡◌, refl, ◌↔◌, ◌⊎◌, true, arith}
use ai_inference_cost_optimi.Prelude.Result.{Result, ok, err}
use ai_inference_cost_optimi.Models.Errors.{
  NormalizedError, normalized_error, StatusError, normalize_http_error,
}
use ai_inference_cost_optimi.Adapters.Anthropic.{
  ClientError, api_timeout, api_connection, api_status, api_response_validation, anthropic_error,
  other_exception, normalize_error,
}

-- The failures after which another provider may be tried.
abbrev pub IsTransient : ClientError → Type 0
IsTransient api_timeout = Unit
IsTransient api_connection = Unit
IsTransient (api_status status retry_after) =
    (status ≡ 408) ⊎ (status ≡ 429) ⊎ (status < 400) ⊎ (500 ≤ status)
IsTransient api_response_validation = ⊥
IsTransient anthropic_error = Unit
IsTransient other_exception = ⊥

abbrev pub Fallback : ClientError → Result StatusError NormalizedError → Type 0
Fallback e (ok n) = (n.fallback_eligible ≡ true) ↔ IsTransient e
Fallback e (err x) = ⊥

-- Every failure of the client library becomes a normalized error, and no other exception; it lets fall
-- back exactly after a timeout, a lost connection, a status 408, 429, below 400 or from 500 on, and an
-- unspecific error of the library.
pub normalize_error-Fallback : (e : ClientError) → Fallback e (normalize_error e)
unfolding normalize_error normalized_error normalize_http_error
normalize_error-Fallback api_timeout = (λ _. tt, λ _. refl)
normalize_error-Fallback api_connection = (λ _. tt, λ _. refl)
normalize_error-Fallback (api_status status retry_after) = ground arith
normalize_error-Fallback api_response_validation = (λ h. false≢true h, λ h. absurd h)
normalize_error-Fallback anthropic_error = (λ _. tt, λ _. refl)
normalize_error-Fallback other_exception = (λ h. false≢true h, λ h. absurd h)
