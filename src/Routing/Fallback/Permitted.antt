-- ===== src/Routing/Fallback/Permitted.antt =====
-- routing/fallback.py: which providers an executor may call, how many, and that restricted data
-- reaches no external adapter.
use mathlib.Core.Path.{fun_ext}
use ai_inference_cost_optimi.Prelude.{
  ℕ, suc, ◌+◌, ◌≤◌, String, ◌≡◌, refl, ap, subst, inl, inr, Bool, true, ◌&&◌, List, [], ◌∷◌, arith,
  if◌then◌else◌, length, length-append, length-take, All, All-take,
}
use ai_inference_cost_optimi.Prelude.Result.{
  Result, ok, err, OnOk, OnOk-bind, OnOk-any, at_ok, Result-cases,
}
use ai_inference_cost_optimi.Models.Enums.{DataClass, restricted, class_eq}
use ai_inference_cost_optimi.Models.Errors.{AttemptOutcome, ProviderError}
use ai_inference_cost_optimi.Models.Domain.{CanonicalChatRequest, RequestContext}
use ai_inference_cost_optimi.Config.Routing.{RoutingPolicy}
use ai_inference_cost_optimi.Adapters.{Adapters, Live}
use ai_inference_cost_optimi.Routing.Policy.{
  RouteDecision, providers, RouteError, keep_private, is_restricted,
}
use ai_inference_cost_optimi.Routing.Policy.Selection.{Private, keep_private-Private}
use ai_inference_cost_optimi.Routing.Fallback.{
  Failure, provider_error, missing_provider, missing_adapter, unexpected, FallbackResult,
  permitted_providers, attempt, chat_from, chat,
}
use ai_inference_cost_optimi.Routing.Fallback.Report.{Tried, Ending, Report, chat_from-Report}

pub permitted-length-le :
    (policy : RoutingPolicy) (d : RouteDecision) (c : DataClass)
    → OnOk (λ names. length names ≤ policy.fallback.max_attempts) (permitted_providers policy d c)
unfolding permitted_providers
permitted-length-le policy d c =
    OnOk-bind (λ _. Unit) (λ names. length names ≤ policy.fallback.max_attempts)
      (if policy.fallback.never_cross_data_policy && is_restricted c
        then keep_private policy.providers (providers d)
        else ok (providers d))
      _ (OnOk-any _) (λ names _. length-take policy.fallback.max_attempts names)

pub permitted-Private :
    (policy : RoutingPolicy) (d : RouteDecision)
    → policy.fallback.never_cross_data_policy ≡ true
    → OnOk (All (Private policy.providers)) (permitted_providers policy d restricted)
unfolding permitted_providers
permitted-Private policy d never = rw never (
    OnOk-bind (All (Private policy.providers)) (All (Private policy.providers))
      (keep_private policy.providers (providers d)) _
      (keep_private-Private policy.providers (providers d))
      (λ names h. All-take (Private policy.providers) policy.fallback.max_attempts names h))

-- Two families of adapters that are the same for the providers of `P`.
pub record Agree {W : Type 0} (P : String → Type 0) (a b : Adapters W) : Type 0 where
  pub known : (name : String) → P name → a.known name ≡ b.known name
  pub chat :
      (name : String) (request : CanonicalChatRequest) (ctx : RequestContext) (w : W)
      → P name
      → a.chat name request ctx w ≡ b.chat name request ctx w
  pub stream :
      (name : String) (request : CanonicalChatRequest) (ctx : RequestContext) (w : W)
      → P name
      → a.stream name request ctx w ≡ b.stream name request ctx w

module _ {W : Type 0} (P : String → Type 0) (a b : Adapters W) (agree : Agree P a b)
    (policy : RoutingPolicy) (request : CanonicalChatRequest) (ctx : RequestContext) where
  attempt-Agree :
      (name : String) (budget : ℕ) (s : Live W)
      → P name
      → attempt a policy request ctx name budget s ≡ attempt b policy request ctx name budget s
  unfolding attempt
  attempt-Agree name budget s h = rw (agree.chat name request ctx s.world h)

  -- The loop calls no adapter but those of its providers.
  chat_from-Agree :
      (index : ℕ) (names : List String) (start : List AttemptOutcome) (s : Live W)
      → All P names
      → chat_from a policy request ctx index names start s
        ≡ chat_from b policy request ctx index names start s
  unfolding chat_from
  chat_from-Agree index [] start s h = refl
  chat_from-Agree index (name ∷ rest) start s h =
      let next : chat_from a policy request ctx (suc index) rest
          ≡ chat_from b policy request ctx (suc index) rest =
        fun_ext (λ log. fun_ext (λ s'. chat_from-Agree (suc index) rest log s' h.1)) in
      rw (agree.known name h.0, attempt-Agree name _ s h.0, next)

-- The log that an outcome carries.
abbrev pub attempts_of : Result Failure FallbackResult → List AttemptOutcome
attempts_of (ok r) = r.attempts
attempts_of (err (provider_error e)) = e.attempts
attempts_of (err _) = []

length-Tried :
    (policy : RoutingPolicy) (names : List String) (log : List AttemptOutcome)
    → Tried policy names log
    → length log ≡ length names
length-Tried policy [] [] h = refl
length-Tried policy (n ∷ ns) (a ∷ log) h = ap suc (length-Tried policy ns log h.2)
length-Tried policy [] (a ∷ log) h = absurd h
length-Tried policy (n ∷ ns) [] h = absurd h

Ending-length :
    (policy : RoutingPolicy) (rest : List String) (log : List AttemptOutcome) (e : ProviderError)
    → Ending policy rest [] log e
    → length e.attempts ≤ length log + length rest
Ending-length policy rest log e (inl (same, logged)) = omega (arith, ap length logged)
Ending-length policy rest log e (inr (name, later, split, logged, final)) =
    omega (arith, ap length logged, ap length split, length-append {0} log)

-- A log has no more entries than the route has providers.
length-Report :
    (known : String → Bool) (policy : RoutingPolicy) (names : List String)
    (r : Result Failure FallbackResult)
    → Report known policy 0 names [] r
    → length (attempts_of r) ≤ length names
length-Report known policy names (ok r) h = omega (
  arith,
  ap length h.split,
  ap length h.logged,
  length-Tried policy h.before h.log h.tried,
  length-append {0} h.before (r.provider ∷ h.later),
  length-append {0} h.log,
)
length-Report known policy names (err (provider_error e)) h = omega (
  arith,
  ap length h.split,
  Ending-length policy h.rest h.log e h.ending,
  length-Tried policy h.before h.log h.tried,
  length-append {0} h.before h.rest,
)
length-Report known policy names (err (missing_provider e)) h = omega arith
length-Report known policy names (err (missing_adapter n)) h = omega arith
length-Report known policy names (err unexpected) h = omega arith

module _ {W : Type 0} (policy : RoutingPolicy) (request : CanonicalChatRequest)
    (ctx : RequestContext) (d : RouteDecision) where
  -- What the policy permits, in the loop.
  pub chat_permitted :
      (a : Adapters W) (s : Live W) (names : List String)
      → permitted_providers policy d request.metadata.data_class ≡ ok names
      → chat a policy request ctx d s ≡ chat_from a policy request ctx 0 names [] s
  unfolding chat
  chat_permitted a s names e = rw (e, chat)

  -- Whatever the adapters answer, `chat` tries the permitted providers in their order, each but the
  -- last tried with an error that lets fall back. A result and a ProviderError carry the log of this,
  -- and a result its number of fallbacks; an adapter that is missing is one of a permitted provider. Of
  -- a run that an adapter ends by an exception that is no ProviderError, nothing is said.
  pub chat-Report :
      (a : Adapters W) (s : Live W) (names : List String)
      → permitted_providers policy d request.metadata.data_class ≡ ok names
      → Report a.known policy 0 names [] (chat a policy request ctx d s).0
  chat-Report a s names e =
      rw (chat_permitted a s names e) (chat_from-Report a policy request ctx 0 names [] s)

  chat_not_permitted :
      (a : Adapters W) (s : Live W) (e : RouteError)
      → permitted_providers policy d request.metadata.data_class ≡ err e
      → chat a policy request ctx d s ≡ (err (missing_provider e), s)
  unfolding chat
  chat_not_permitted a s e h = rw (h, chat)

  -- The log that an outcome carries has at most `max_attempts` entries.
  pub chat-length-le :
      (a : Adapters W) (s : Live W)
      → length (attempts_of (chat a policy request ctx d s).0) ≤ policy.fallback.max_attempts
  chat-length-le a s =
      elim (Result-cases (permitted_providers policy d request.metadata.data_class)) [
        | inl (names, e) ↦ omega (
          arith,
          length-Report a.known policy names _ (chat-Report a s names e),
          at_ok _ _ (permitted-length-le policy d request.metadata.data_class) e,
        )
        | inr (f, e) ↦ rw (chat_not_permitted a s f e) (omega arith)
      ]

  -- Under `never_cross_data_policy` a run on restricted data is the same, outcome, time and world,
  -- whatever the adapters of external or unknown providers do: it calls none of them.
  pub chat_restricted-Agree :
      (a b : Adapters W) (s : Live W)
      → policy.fallback.never_cross_data_policy ≡ true
      → request.metadata.data_class ≡ restricted
      → Agree (Private policy.providers) a b
      → chat a policy request ctx d s ≡ chat b policy request ctx d s
  chat_restricted-Agree a b s never c agree =
      elim (Result-cases (permitted_providers policy d request.metadata.data_class)) [
        | inl (names, e) ↦
            rw (chat_permitted a s names e, chat_permitted b s names e)
              (chat_from-Agree (Private policy.providers) a b agree policy request ctx 0 names [] s
                (at_ok _ _ (permitted-Private policy d never)
                  (subst (λ k. permitted_providers policy d k ≡ ok names) c e)))
        | inr (f, e) ↦ rw (chat_not_permitted a s f e, chat_not_permitted b s f e)
      ]
