-- ===== src/Routing/Fallback/Calls.antt =====
-- routing/fallback.py: how often an executor calls adapters, counted in their state.
use ai_inference_cost_optimi.Prelude.{
  ℕ, suc, ◌+◌, ◌-◌, ◌≤◌, min, String, ◌≡◌, refl, ap, inl, inr, Bool, not, ◌||◌, List, [], ◌∷◌,
  arith, eqb, length, Bool-cases, Option-cases,
}
use ai_inference_cost_optimi.Prelude.Result.{Result, at_ok, Result-cases}
use ai_inference_cost_optimi.Models.Errors.{NormalizedError, AttemptOutcome}
use ai_inference_cost_optimi.Models.Domain.{CanonicalChatRequest, ProviderResult, RequestContext}
use ai_inference_cost_optimi.Config.Routing.{RoutingPolicy}
use ai_inference_cost_optimi.Adapters.{Adapters, Live, Answer, returned, raised, timed_out, crashed}
use ai_inference_cost_optimi.Routing.Policy.{RouteDecision}
use ai_inference_cost_optimi.Routing.Fallback.{
  Failure, FallbackResult, permitted_providers, may_fall_back, wait_for_retry_after, is_nil,
  after_failure, settle, attempt, chat_from, chat,
}
use ai_inference_cost_optimi.Routing.Fallback.Permitted.{permitted-length-le}

-- The same adapters, with a count of the calls of `chat`.
abbrev pub counting : {W : Type 0} → Adapters W → Adapters (W × ℕ)
counting a = record {
  known = a.known;
  chat = λ name request ctx w.
      let (call, world) = a.chat name request ctx w.0 in (call, (world, suc w.1));
  stream = λ name request ctx w.
      let (feed, world) = a.stream name request ctx w.0 in (feed, (world, w.1));
  price = a.price;
}

module _ {W : Type 0} (a : Adapters W) (policy : RoutingPolicy) (request : CanonicalChatRequest)
    (ctx : RequestContext) (most : ℕ) where
  abbrev Few : Result Failure FallbackResult × Live (W × ℕ) → Type 0
  Few run = run.1.world.1 ≤ most

  wait_calls :
      (error : NormalizedError) (s : Live (W × ℕ))
      → (wait_for_retry_after error ctx s).1.world ≡ s.world
  unfolding wait_for_retry_after
  wait_calls error s = elim (Option-cases error.retry_after_seconds) [
    | inl e ↦ rw e refl
    | inr (hint, e) ↦
        elim (Bool-cases (eqb (ctx.deadline_at - s.now - min hint (ctx.deadline_at - s.now)) 0)) [
          | inl f ↦ rw (e, f) refl
          | inr f ↦ rw (e, f) refl
        ]
  ]

  attempt_calls :
      (name : String) (budget : ℕ) (s : Live (W × ℕ))
      → (attempt (counting a) policy request ctx name budget s).1.world.1 ≡ suc s.world.1
  unfolding attempt
  attempt_calls name budget s = refl

  after_failure-Few :
      (error : NormalizedError) (log : List AttemptOutcome) (is_last : Bool)
      (next : Live (W × ℕ) → Result Failure FallbackResult × Live (W × ℕ)) (s : Live (W × ℕ))
      → ((s' : Live (W × ℕ)) → s'.world ≡ s.world → Few (next s'))
      → s.world.1 ≤ most
      → Few (after_failure policy ctx error log is_last next s)
  unfolding after_failure
  after_failure-Few error log is_last next s h t =
      let same = wait_calls error s in
      elim (Bool-cases (is_last || not (may_fall_back policy error))) [
        | inl stop ↦ rw stop t
        | inr more ↦ elim (Bool-cases (wait_for_retry_after error ctx s).0) [
          | inl go_on ↦ rw (more, go_on) (h _ same)
          | inr late ↦ rw (more, late) (rw same t)
        ]
      ]

  settle-Few :
      (index : ℕ) (name : String) (is_last : Bool) (start : List AttemptOutcome)
      (next : List AttemptOutcome → Live (W × ℕ) → Result Failure FallbackResult × Live (W × ℕ))
      (answer : Answer ProviderResult) (s : Live (W × ℕ))
      → ((log : List AttemptOutcome) (s' : Live (W × ℕ)) → s'.world ≡ s.world → Few (next log s'))
      → s.world.1 ≤ most
      → Few (settle policy ctx index name is_last start next answer s)
  unfolding settle
  settle-Few index name is_last start next (returned r) s h t = t
  settle-Few index name is_last start next (raised error) s h t =
      after_failure-Few error _ is_last _ s (h _) t
  settle-Few index name is_last start next timed_out s h t =
      after_failure-Few _ _ is_last _ s (h _) t
  settle-Few index name is_last start next crashed s h t = t

  chat_from-Few :
      (index : ℕ) (names : List String) (start : List AttemptOutcome) (s : Live (W × ℕ))
      → s.world.1 + length names ≤ most
      → Few (chat_from (counting a) policy request ctx index names start s)
  unfolding chat_from
  chat_from-Few index [] start s t = omega (arith, t)
  chat_from-Few index (name ∷ rest) start s t =
      elim (Bool-cases (eqb (ctx.deadline_at - s.now) 0)) [
        | inl over ↦ rw over (omega (arith, t))
        | inr left ↦ elim (Bool-cases (a.known name)) [
          | inr missing ↦ rw (left, missing) (omega (arith, t))
          | inl found ↦
              let budget = min policy.timeouts.per_attempt_timeout (ctx.deadline_at - s.now) in
              let called = attempt_calls name budget s in
              rw (left, found)
                (settle-Few index name (is_nil rest) start _ _ _
                  (λ log s' same.
                    chat_from-Few (suc index) rest log s'
                      (omega (arith, t, called, ap (λ w. w.1) same)))
                  (omega (arith, t, called)))
        ]
      ]

-- However a run ends, also by an exception that no handler catches, it has called adapters at most
-- `max_attempts` times.
pub chat-calls_le :
    {W : Type 0} (a : Adapters W) (policy : RoutingPolicy) (request : CanonicalChatRequest)
    (ctx : RequestContext) (d : RouteDecision) (s : Live (W × ℕ))
    → (chat (counting a) policy request ctx d s).1.world.1
      ≤ s.world.1 + policy.fallback.max_attempts
unfolding chat
chat-calls_le a policy request ctx d s =
    elim (Result-cases (permitted_providers policy d request.metadata.data_class)) [
      | inl (names, e) ↦
          let few = at_ok _ _ (permitted-length-le policy d request.metadata.data_class) e in
          rw (e, chat)
            (chat_from-Few a policy request ctx (s.world.1 + policy.fallback.max_attempts) 0 names
              [] s (omega (arith, few)))
      | inr (f, e) ↦ rw (e, chat) (omega arith)
    ]
