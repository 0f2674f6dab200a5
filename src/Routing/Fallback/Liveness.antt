-- ===== src/Routing/Fallback/Liveness.antt =====
-- routing/fallback.py: a request is answered as long as one permitted provider works.
use ai_inference_cost_optimi.Prelude.{
  ℕ, suc, ◌+◌, ◌-◌, ◌≤◌, ◌<◌, min, String, ◌≡◌, refl, inl, inr, Bool, true, false, none, List, [],
  ◌∷◌, arith, ltb, lt→ltb, eqb, All, Exists, Bool-cases,
}
use ai_inference_cost_optimi.Prelude.Equality.{elem}
use ai_inference_cost_optimi.Prelude.Result.{Result, ok}
use ai_inference_cost_optimi.Models.Enums.{timeout, error_eq}
use ai_inference_cost_optimi.Models.Errors.{NormalizedError, AttemptOutcome, normalized_error}
use ai_inference_cost_optimi.Models.Domain.{CanonicalChatRequest, ProviderResult, RequestContext}
use ai_inference_cost_optimi.Config.Routing.{RoutingPolicy}
use ai_inference_cost_optimi.Adapters.{
  Adapters, Live, Answer, returned, raised, timed_out, crashed, Call, after, hangs, abide,
}
use ai_inference_cost_optimi.Routing.Policy.{RouteDecision}
use ai_inference_cost_optimi.Routing.Fallback.{
  Failure, FallbackResult, permitted_providers, may_fall_back, wait_for_retry_after, timeout_error,
  after_failure, settle, attempt, chat_from, chat,
}
use ai_inference_cost_optimi.Routing.Fallback.Deadline.{abide_le}

-- A call that does not end the run by itself: it hangs, gives a result, runs into a timeout, or fails
-- with an error that lets fall back and asks for no wait.
abbrev pub Passes : RoutingPolicy → Call ProviderResult → Type 0
Passes policy hangs = Unit
Passes policy (after took (returned r)) = Unit
Passes policy (after took timed_out) = Unit
Passes policy (after took (raised e)) =
    (may_fall_back policy e ≡ true) × (e.retry_after_seconds ≡ none)
Passes policy (after took crashed) = ⊥

-- The same of an answer.
abbrev Continues : RoutingPolicy → Answer ProviderResult → Type 0
Continues policy (returned r) = Unit
Continues policy timed_out = Unit
Continues policy (raised e) = (may_fall_back policy e ≡ true) × (e.retry_after_seconds ≡ none)
Continues policy crashed = ⊥

-- A call that gives a result within a time.
abbrev pub Answers : ℕ → Call ProviderResult → Type 0
Answers limit call =
    (took : ℕ) × (r : ProviderResult) × (call ≡ after took (returned r)) × (took < limit)

abbrev IsOk : Result Failure FallbackResult → Type 0
IsOk r = (result : FallbackResult) × (r ≡ ok result)

abide-Continues :
    (policy : RoutingPolicy) (budget : ℕ) (call : Call ProviderResult)
    → Passes policy call
    → Continues policy (abide budget call).0
unfolding abide
abide-Continues policy budget hangs h = tt
abide-Continues policy budget (after took answer) h = elim (Bool-cases (ltb took budget)) [
  | inl e ↦ rw e (go answer h)
  | inr e ↦ rw e tt
]
  where
    go :
        (answer : Answer ProviderResult)
        → Passes policy (after took answer)
        → Continues policy answer
    go (returned r) h = h
    go (raised e) h = h
    go timed_out h = h
    go crashed h = h

module _ {W : Type 0} (policy : RoutingPolicy) (ctx : RequestContext)
    (patient : elem timeout policy.fallback.on ≡ true) where
  after_failure-next :
      (error : NormalizedError) (log : List AttemptOutcome)
      (next : Live W → Result Failure FallbackResult × Live W) (s : Live W)
      → may_fall_back policy error ≡ true
      → error.retry_after_seconds ≡ none
      → after_failure policy ctx error log false next s ≡ next s
  unfolding after_failure wait_for_retry_after
  after_failure-next error log next s may no_wait = ground arith

  -- An attempt that passes, with providers left: a result, or the rest of the loop at the same time.
  settle-IsOk :
      (index : ℕ) (name : String) (log : List AttemptOutcome)
      (next : List AttemptOutcome → Live W → Result Failure FallbackResult × Live W)
      (answer : Answer ProviderResult) (s : Live W)
      → Continues policy answer
      → ((log' : List AttemptOutcome) → IsOk (next log' s).0)
      → IsOk (settle policy ctx index name false log next answer s).0
  unfolding settle timeout_error normalized_error
  settle-IsOk index name log next (returned r) s c h = (_, refl)
  settle-IsOk index name log next (raised e) s c h =
      rw (after_failure-next e _ (next _) s c.0 c.1) (h _)
  settle-IsOk index name log next timed_out s c h =
      rw (after_failure-next (timeout_error "provider attempt timed out") _ (next _) s patient refl)
        (h _)
  settle-IsOk index name log next crashed s c h = absurd c

  settle_returned :
      (index : ℕ) (name : String) (is_last : Bool) (log : List AttemptOutcome)
      (next : List AttemptOutcome → Live W → Result Failure FallbackResult × Live W)
      (answer : Answer ProviderResult) (s : Live W) (r : ProviderResult)
      → answer ≡ returned r
      → IsOk (settle policy ctx index name is_last log next answer s).0
  unfolding settle
  settle_returned index name is_last log next answer s r e = rw e (_, refl)

-- A provider that gives a result within a time, whatever the state of the adapters.
abbrev pub Reliable :
    {W : Type 0} → Adapters W → CanonicalChatRequest → RequestContext → ℕ → String → Type 0
Reliable {W} adapters request ctx limit name =
    (w : W) → Answers limit (adapters.chat name request ctx w).0

-- The time of one attempt for each provider.
abbrev pub turns : ℕ → List String → ℕ
turns limit [] = 0
turns limit (name ∷ names) = limit + turns limit names

module _ {W : Type 0} (adapters : Adapters W) (policy : RoutingPolicy)
    (request : CanonicalChatRequest) (ctx : RequestContext)
    (patient : elem timeout policy.fallback.on ≡ true)
    (passes : (name : String) (w : W) → Passes policy (adapters.chat name request ctx w).0) where
  abbrev limit : ℕ
  limit = policy.timeouts.per_attempt_timeout

  abbrev Ready : String → Type 0
  Ready = Reliable adapters request ctx limit

  attempt_returned :
      (name : String) (budget : ℕ) (s : Live W)
      → Ready name
      → limit ≤ budget
      → (r : ProviderResult) × ((attempt adapters policy request ctx name budget s).0 ≡ returned r)
  unfolding attempt abide
  attempt_returned name budget s ready h =
      let (took, r, e, quick) = ready s.world in
      (r, rw (e, lt→ltb took budget (omega (arith, quick, h))) refl)

  attempt_passes :
      (name : String) (budget : ℕ) (s : Live W)
      → Continues policy (attempt adapters policy request ctx name budget s).0
        × ((attempt adapters policy request ctx name budget s).1.now ≤ s.now + budget)
  unfolding attempt
  attempt_passes name budget s =
      let call = (adapters.chat name request ctx s.world).0 in
      (
        abide-Continues policy budget call (passes name s.world),
        omega (arith, abide_le budget call),
      )

  chat_from-IsOk :
      (index : ℕ) (names : List String) (log : List AttemptOutcome) (s : Live W)
      → 0 < limit
      → All (λ name. adapters.known name ≡ true) names
      → Exists Ready names
      → s.now + turns limit names ≤ ctx.deadline_at
      → IsOk (chat_from adapters policy request ctx index names log s).0
  unfolding chat_from
  chat_from-IsOk index [] log s p known ready t = absurd ready
  chat_from-IsOk index (name ∷ []) log s p known (inl ready) t =
      let budget = min limit (ctx.deadline_at - s.now) in
      let left : eqb (ctx.deadline_at - s.now) 0 ≡ false = ground arith in
      let (r, e) = attempt_returned name budget s ready (omega (arith, t)) in
      rw (left, known.0) (settle_returned policy ctx patient index name true log _ _ _ r e)
  chat_from-IsOk index (name ∷ []) log s p known (inr none_ready) t = absurd none_ready
  chat_from-IsOk index (name ∷ other ∷ rest) log s p known (inl ready) t =
      let budget = min limit (ctx.deadline_at - s.now) in
      let left : eqb (ctx.deadline_at - s.now) 0 ≡ false = ground arith in
      let (r, e) = attempt_returned name budget s ready (omega (arith, t)) in
      rw (left, known.0) (settle_returned policy ctx patient index name false log _ _ _ r e)
  chat_from-IsOk index (name ∷ other ∷ rest) log s p known (inr later) t =
      let budget = min limit (ctx.deadline_at - s.now) in
      let left : eqb (ctx.deadline_at - s.now) 0 ≡ false = ground arith in
      let (go_on, quick) = attempt_passes name budget s in
      rw (left, known.0)
        (settle-IsOk policy ctx patient index name log _ _ _ go_on (λ log'.
          chat_from-IsOk (suc index) (other ∷ rest) log' _ p known.1 later
            (omega (arith, t, quick))))

  -- Of the permitted providers, all known, let one give a result within the timeout of an attempt,
  -- whatever the state, and let none end a run by itself: each call hangs, gives a result, or fails
  -- with an error that lets fall back and asks for no wait. If timeouts let fall back and the deadline
  -- leaves each provider the time of one attempt, the run gives a result.
  pub chat-IsAnswered :
      (d : RouteDecision) (s : Live W) (names : List String)
      → permitted_providers policy d request.metadata.data_class ≡ ok names
      → 0 < limit
      → All (λ name. adapters.known name ≡ true) names
      → Exists Ready names
      → s.now + turns limit names ≤ ctx.deadline_at
      → (result : FallbackResult) × ((chat adapters policy request ctx d s).0 ≡ ok result)
  unfolding chat
  chat-IsAnswered d s names e p known ready t =
      rw (e, chat) (chat_from-IsOk 0 names [] s p known ready t)
