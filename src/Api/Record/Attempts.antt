-- ===== src/Api/Record/Attempts.antt =====
-- api/routes.py: what the history of attempts adds to the error and fallback counters.
use ai_inference_cost_optimi.Prelude.{ℕ, ◌+◌, String, ◌≡◌, refl, List, [], ◌∷◌, ◌++◌, arith, length}
use ai_inference_cost_optimi.Models.Enums.{ErrorClass}
use ai_inference_cost_optimi.Models.Errors.{AttemptOutcome, ProviderError}
use ai_inference_cost_optimi.Models.Domain.{NormalizedUsage}
use ai_inference_cost_optimi.Adapters.{Adapters}
use ai_inference_cost_optimi.Routing.Policy.{RouteDecision}
use ai_inference_cost_optimi.Config.Routing.{RoutingPolicy}
use ai_inference_cost_optimi.Routing.Fallback.{FallbackResult, succeeded}
use ai_inference_cost_optimi.Routing.Fallback.Report.{Tried, IsAnswered}
use ai_inference_cost_optimi.Api.Record.{
  Entry, requests_total, fallback, provider_errors, attempt_history, Labels, result_metrics,
  unattempted, last_provider, terminal_error,
}

-- How often an entry of a kind stands in a registry.
abbrev pub count : (Entry → ℕ) → List Entry → ℕ
count kind [] = 0
count kind (e ∷ entries) = kind e + count kind entries

abbrev pub is_request : Entry → ℕ
is_request (requests_total p l o) = 1
is_request _ = 0

abbrev pub is_fallback : Entry → ℕ
is_fallback (fallback f t r) = 1
is_fallback _ = 0

abbrev pub is_provider_error : Entry → ℕ
is_provider_error (provider_errors p c) = 1
is_provider_error _ = 0

pub count-append :
    (kind : Entry → ℕ) (xs ys : List Entry) → count kind (xs ++ ys) ≡ count kind xs + count kind ys
count-append kind [] ys = omega arith
count-append kind (x ∷ xs) ys = omega (arith, count-append kind xs ys)

-- A request is counted by its handler, and never by the history of its attempts.
pub count-attempt_history : (log : List AttemptOutcome) → count is_request (attempt_history log) ≡ 0
unfolding attempt_history
count-attempt_history [] = refl
count-attempt_history (a ∷ []) = ground arith
count-attempt_history (a ∷ b ∷ rest) = ground (arith, count-attempt_history (b ∷ rest))

-- Failures that were tried in turn, and then a success: each failure is one error and one fallback.
history_counts :
    (policy : RoutingPolicy) (names : List String) (log : List AttemptOutcome) (name : String)
    → Tried policy names log
    → (count is_fallback (attempt_history (log ++ succeeded name ∷ [])) ≡ length names)
      × (count is_provider_error (attempt_history (log ++ succeeded name ∷ [])) ≡ length names)
unfolding attempt_history succeeded
history_counts policy [] [] name h = (refl, refl)
history_counts policy (n ∷ []) (a ∷ []) name h = ground arith
history_counts policy (n ∷ m ∷ ns) (a ∷ b ∷ log) name h =
    ground (arith, history_counts policy (m ∷ ns) (b ∷ log) name h.2)
history_counts policy [] (a ∷ log) name h = absurd h
history_counts policy (n ∷ ns) [] name h = absurd h
history_counts policy (n ∷ []) (a ∷ b ∷ log) name h = absurd h.2
history_counts policy (n ∷ m ∷ ns) (a ∷ []) name h = absurd h.2

-- For a request that was answered, the recorded history counts one provider error and one fallback
-- for each provider that failed before: as many as the result's `fallback_count`.
pub attempt_history_counts :
    (policy : RoutingPolicy) (names : List String) (r : FallbackResult)
    → IsAnswered policy 0 names [] r
    → (count is_fallback (attempt_history r.attempts) ≡ r.fallback_count)
      × (count is_provider_error (attempt_history r.attempts) ≡ r.fallback_count)
attempt_history_counts policy names r h =
    let (fallbacks, errors) = history_counts policy h.before h.log r.provider h.tried in
    rw h.logged (omega (arith, fallbacks, h.counted), omega (arith, errors, h.counted))

pub count-result_metrics :
    {W : Type 0} (adapters : Adapters W) (provider : String) (l : Labels) (u : NormalizedUsage)
    → count is_request (result_metrics adapters provider l u) ≡ 0
unfolding result_metrics
count-result_metrics adapters provider l u = ground arith

count-unattempted :
    (log : List AttemptOutcome) (provider : String) (c : ErrorClass)
    → count is_request (unattempted log provider c) ≡ 0
count-unattempted [] provider c = refl
count-unattempted (a ∷ log) provider c = refl

pub count-terminal_error :
    (e : ProviderError) (d : RouteDecision) (l : Labels) (seconds : ℕ)
    → count is_request (terminal_error e d l seconds) ≡ 1
unfolding terminal_error
count-terminal_error e d l seconds =
    let provider = last_provider e.attempts d.primary in
    omega (
      arith,
      count-append is_request (attempt_history e.attempts) _,
      count-attempt_history e.attempts,
      count-append is_request (unattempted e.attempts provider e.error.error_class) _,
      count-unattempted e.attempts provider e.error.error_class,
    )
