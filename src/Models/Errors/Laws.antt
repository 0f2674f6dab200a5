-- ===== src/Models/Errors/Laws.antt =====
-- models/errors.py: which HTTP statuses lead to another attempt.
use ai_inference_cost_optimi.Prelude.{ℕ, ◌≤◌, ◌<◌, String, ◌≡◌, ◌↔◌, ◌⊎◌, true, Option, some, arith}
use ai_inference_cost_optimi.Prelude.Result.{Result, ok, err}
use ai_inference_cost_optimi.Models.Errors.{
  NormalizedError, StatusError, unsupported_status, normalize_http_error,
}

-- What the classification of a status must satisfy.
abbrev pub Classified : ℕ → Result StatusError NormalizedError → Type 0
Classified status (ok e) =
    (400 ≤ status)
    × (status < 600)
    × (e.http_status ≡ some status)
    × (e.fallback_eligible ≡ e.retry_eligible)
    × ((e.fallback_eligible ≡ true) ↔ ((status ≡ 408) ⊎ (status ≡ 429) ⊎ (500 ≤ status)))
Classified status (err e) = (e ≡ unsupported_status status) × ((status < 400) ⊎ (600 ≤ status))

-- A status from 400 to 599 gives an error with that status, and any other is refused. The error lets
-- retry and fall back together, exactly for 408, 429 and the statuses from 500 on.
pub normalize_http_error-Classified :
    (status : ℕ) (message : String) (retry_after : Option ℕ)
    → Classified status (normalize_http_error status message retry_after)
unfolding normalize_http_error
normalize_http_error-Classified status message retry_after = ground arith
