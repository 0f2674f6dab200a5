-- ===== src/Routing/Fallback.antt =====
-- routing/fallback.py: the executor's attempts along a route, for a whole response. The clock is
-- read where the code reads it; a difference of times stops at 0, as the code only asks whether
-- what remains is above 0.
pub mod Permitted
pub mod Report
pub mod Trace
pub mod Answers
pub mod Deadline
pub mod Calls
pub mod Liveness
pub mod Examples
use ai_inference_cost_optimi.Prelude.{
  ℕ, suc, ◌+◌, ◌-◌, min, String, Bool, true, false, not, ◌&&◌, ◌||◌, Option, none, some, List, [],
  ◌∷◌, ◌++◌, eqb, if◌then◌else◌, take, length,
}
use ai_inference_cost_optimi.Prelude.Equality.{elem}
use ai_inference_cost_optimi.Prelude.Dict.{Dict, get}
use ai_inference_cost_optimi.Prelude.Result.{Result, ok, err, ◌>>=◌}
use ai_inference_cost_optimi.Models.Enums.{DataClass, restricted, ErrorClass, timeout, error_eq}
use ai_inference_cost_optimi.Models.Errors.{
  NormalizedError, normalized_error, AttemptOutcome, ProviderError,
}
use ai_inference_cost_optimi.Models.Domain.{CanonicalChatRequest, ProviderResult, RequestContext}
use ai_inference_cost_optimi.Config.Routing.{RoutingPolicy, TimeoutConfig}
use ai_inference_cost_optimi.Adapters.{
  Adapters, Live, Answer, returned, raised, timed_out, crashed, Call, abide,
}
use ai_inference_cost_optimi.Routing.Policy.{
  RouteDecision, providers, RouteError, keep_private, is_restricted,
}

-- What leaves the executor: a ProviderError, the KeyError of a name that the policy or the adapters
-- lack, or an exception of an adapter that is no ProviderError.
pub data Failure : Type 0 where
  provider_error : ProviderError → Failure
  missing_provider : RouteError → Failure
  missing_adapter : String → Failure
  unexpected : Failure

pub record FallbackResult : Type 0 where
  pub result : ProviderResult
  pub provider : String
  pub fallback_count : ℕ
  pub attempts : List AttemptOutcome

unfoldable pub deadline_error : NormalizedError
unfolding normalized_error
deadline_error = normalized_error timeout "global request deadline exhausted" none none

-- `_with_attempts`, raised
unfoldable pub raise_with : {A : Type 0} → NormalizedError → List AttemptOutcome → Result Failure A
raise_with error attempts = err (provider_error (record { error = error; attempts = attempts }))

-- The records of an attempt that returned and of one that failed.
unfoldable pub succeeded : String → AttemptOutcome
succeeded name = record { provider = name; error_class = none; retry_after_seconds = none }

unfoldable pub failed : String → NormalizedError → AttemptOutcome
failed name error = record {
  provider = name;
  error_class = some error.error_class;
  retry_after_seconds = error.retry_after_seconds;
}

-- `_permitted_providers`
unfoldable pub permitted_providers :
    RoutingPolicy → RouteDecision → DataClass → Result RouteError (List String)
permitted_providers policy decision data_class = do
  names ←
      if policy.fallback.never_cross_data_policy && is_restricted data_class
      then keep_private policy.providers (providers decision)
      else ok (providers decision)
  ok (take policy.fallback.max_attempts names)

-- `_fallback_eligible`
abbrev pub may_fall_back : RoutingPolicy → NormalizedError → Bool
may_fall_back policy error = error.fallback_eligible && elem error.error_class policy.fallback.on

module _ {W : Type 0} where
  -- `_wait_for_retry_after`: may another attempt follow, and the time after the wait.
  pub wait_for_retry_after : NormalizedError → RequestContext → Live W → Bool × Live W
  wait_for_retry_after error ctx s = elim error.retry_after_seconds [
    | none ↦ (true, s)
    | some hint ↦
        let remaining = ctx.deadline_at - s.now in
        let delay = min hint remaining in
        if eqb (remaining - delay) 0 then (false, s) else (true, record s { now = s.now + delay })
  ]

-- The errors that the executor makes of a timeout.
unfoldable pub timeout_error : String → NormalizedError
unfolding normalized_error
timeout_error message = normalized_error timeout message none none

-- `index == len(providers) - 1`: no provider is left.
abbrev pub is_nil : List String → Bool
is_nil [] = true
is_nil (x ∷ xs) = false

module _ {W : Type 0} (policy : RoutingPolicy) (ctx : RequestContext) where
  -- What follows a failed attempt: `next` is the rest of the loop.
  pub after_failure :
      NormalizedError
      → List AttemptOutcome
      → Bool
      → (Live W → Result Failure FallbackResult × Live W)
      → Live W
      → Result Failure FallbackResult × Live W
  unfolding raise_with
  after_failure error attempts is_last next s =
      if is_last || not (may_fall_back policy error)
      then (raise_with error attempts, s)
      else (let (go_on, s') = wait_for_retry_after error ctx s in
          if go_on then next s' else (raise_with error attempts, s'))

  -- What follows an attempt, by its answer.
  pub settle :
      ℕ
      → String
      → Bool
      → List AttemptOutcome
      → (List AttemptOutcome → Live W → Result Failure FallbackResult × Live W)
      → Answer ProviderResult
      → Live W
      → Result Failure FallbackResult × Live W
  settle index name is_last attempts next (returned result) s = (
    ok (record {
      result = result;
      provider = name;
      fallback_count = index;
      attempts = attempts ++ succeeded name ∷ [];
    }),
    s,
  )
  settle index name is_last attempts next (raised error) s =
      let log = attempts ++ failed name error ∷ [] in after_failure error log is_last (next log) s
  settle index name is_last attempts next timed_out s =
      let error = timeout_error "provider attempt timed out" in
      let log = attempts ++ failed name error ∷ [] in after_failure error log is_last (next log) s
  settle index name is_last attempts next crashed s = (err unexpected, s)

module _ {W : Type 0} (adapters : Adapters W) (policy : RoutingPolicy)
    (request : CanonicalChatRequest) (ctx : RequestContext) where
  -- One `adapter.chat` under its timeout.
  pub attempt : String → ℕ → Live W → Answer ProviderResult × Live W
  unfolding abide
  attempt name budget s =
      let (call, world) = adapters.chat name request ctx s.world in
      let (answer, took) = abide budget call in
      (answer, record { now = s.now + took; world = world })

  -- The loop over the providers from `index` on.
  pub chat_from :
      ℕ → List String → List AttemptOutcome → Live W → Result Failure FallbackResult × Live W
  unfolding raise_with
  chat_from index [] attempts s = (raise_with deadline_error attempts, s)
  chat_from index (name ∷ rest) attempts s =
      let remaining = ctx.deadline_at - s.now in
      if eqb remaining 0
      then (raise_with deadline_error attempts, s)
      else if not (adapters.known name)
      then (err (missing_adapter name), s)
      else (let (answer, s') = attempt name (min policy.timeouts.per_attempt_timeout remaining) s in
          settle policy ctx index name (is_nil rest) attempts (chat_from (suc index) rest) answer
            s')

  -- `FallbackExecutor.chat`
  pub chat : RouteDecision → Live W → Result Failure FallbackResult × Live W
  unfolding permitted_providers
  chat decision s = elim (permitted_providers policy decision request.metadata.data_class) [
    | err e ↦ (err (missing_provider e), s)
    | ok names ↦ chat_from 0 names [] s
  ]
