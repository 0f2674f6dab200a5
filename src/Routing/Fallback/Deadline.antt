-- ===== src/Routing/Fallback/Deadline.antt =====
-- routing/fallback.py: the executor ends by the deadline of the request.
use ai_inference_cost_optimi.Prelude.{
  ℕ, suc, ◌-◌, ◌≤◌, min, String, inl, inr, Bool, not, ◌||◌, List, [], ◌∷◌, arith, eqb, Bool-cases,
}
use ai_inference_cost_optimi.Prelude.Result.{Result, Result-cases}
use ai_inference_cost_optimi.Models.Errors.{NormalizedError, AttemptOutcome}
use ai_inference_cost_optimi.Models.Domain.{CanonicalChatRequest, ProviderResult, RequestContext}
use ai_inference_cost_optimi.Config.Routing.{RoutingPolicy}
use ai_inference_cost_optimi.Adapters.{
  Adapters, Live, Answer, returned, raised, timed_out, crashed, Call, after, hangs, abide,
}
use ai_inference_cost_optimi.Routing.Policy.{RouteDecision}
use ai_inference_cost_optimi.Routing.Fallback.{
  Failure, FallbackResult, permitted_providers, may_fall_back, wait_for_retry_after, after_failure,
  settle, attempt, is_nil, chat_from, chat,
}

pub abide_le : {A : Type 0} (budget : ℕ) (c : Call A) → (abide budget c).1 ≤ budget
unfolding abide
abide_le budget hangs = omega arith
abide_le budget (after took answer) = ground arith

pub wait_le :
    {W : Type 0} (error : NormalizedError) (ctx : RequestContext) (s : Live W)
    → s.now ≤ ctx.deadline_at
    → (wait_for_retry_after error ctx s).1.now ≤ ctx.deadline_at
unfolding wait_for_retry_after
wait_le error ctx s h = ground arith

module _ {W : Type 0} (adapters : Adapters W) (policy : RoutingPolicy)
    (request : CanonicalChatRequest) (ctx : RequestContext) where
  abbrev InTime : Result Failure FallbackResult × Live W → Type 0
  InTime r = r.1.now ≤ ctx.deadline_at

  attempt_le :
      (name : String) (s : Live W)
      → s.now ≤ ctx.deadline_at
      → (attempt adapters policy request ctx name
          (min policy.timeouts.per_attempt_timeout (ctx.deadline_at - s.now))
          s).1.now
        ≤ ctx.deadline_at
  unfolding attempt
  attempt_le name s h =
      let budget = min policy.timeouts.per_attempt_timeout (ctx.deadline_at - s.now) in
      omega (arith, abide_le budget (adapters.chat name request ctx s.world).0)

  after_failure-InTime :
      (error : NormalizedError) (log : List AttemptOutcome) (is_last : Bool)
      (next : Live W → Result Failure FallbackResult × Live W) (s : Live W)
      → ((s' : Live W) → s'.now ≤ ctx.deadline_at → InTime (next s'))
      → s.now ≤ ctx.deadline_at
      → InTime (after_failure policy ctx error log is_last next s)
  unfolding after_failure
  after_failure-InTime error log is_last next s h t =
      elim (Bool-cases (is_last || not (may_fall_back policy error))) [
        | inl stop ↦ rw stop t
        | inr more ↦ elim (Bool-cases (wait_for_retry_after error ctx s).0) [
          | inl go_on ↦ rw (more, go_on) (h _ (wait_le error ctx s t))
          | inr late ↦ rw (more, late) (wait_le error ctx s t)
        ]
      ]

  settle-InTime :
      (index : ℕ) (name : String) (is_last : Bool) (start : List AttemptOutcome)
      (next : List AttemptOutcome → Live W → Result Failure FallbackResult × Live W)
      (answer : Answer ProviderResult) (s : Live W)
      → ((log : List AttemptOutcome) (s' : Live W)
          → s'.now ≤ ctx.deadline_at
          → InTime (next log s'))
      → s.now ≤ ctx.deadline_at
      → InTime (settle policy ctx index name is_last start next answer s)
  unfolding settle
  settle-InTime index name is_last start next (returned r) s h t = t
  settle-InTime index name is_last start next (raised error) s h t =
      after_failure-InTime error _ is_last _ s (h _) t
  settle-InTime index name is_last start next timed_out s h t =
      after_failure-InTime _ _ is_last _ s (h _) t
  settle-InTime index name is_last start next crashed s h t = t

  chat_from-InTime :
      (index : ℕ) (names : List String) (start : List AttemptOutcome) (s : Live W)
      → s.now ≤ ctx.deadline_at
      → InTime (chat_from adapters policy request ctx index names start s)
  unfolding chat_from
  chat_from-InTime index [] start s t = t
  chat_from-InTime index (name ∷ rest) start s t =
      elim (Bool-cases (eqb (ctx.deadline_at - s.now) 0)) [
        | inl over ↦ rw over t
        | inr left ↦ elim (Bool-cases (adapters.known name)) [
          | inr missing ↦ rw (left, missing) t
          | inl found ↦
              rw (left, found)
                (settle-InTime index name (is_nil rest) start _ _ _
                  (λ log s'. chat_from-InTime (suc index) rest log s') (attempt_le name s t))
        ]
      ]

  -- A run that starts by the deadline ends by it, attempts and waits included, also when adapters
  -- hang: every attempt is cut off in time.
  pub chat-InTime :
      (d : RouteDecision) (s : Live W)
      → s.now ≤ ctx.deadline_at
      → (chat adapters policy request ctx d s).1.now ≤ ctx.deadline_at
  unfolding chat
  chat-InTime d s t =
      elim (Result-cases (permitted_providers policy d request.metadata.data_class)) [
        | inl (names, e) ↦ rw (e, chat) (chat_from-InTime 0 names [] s t)
        | inr (f, e) ↦ rw (e, chat) t
      ]
