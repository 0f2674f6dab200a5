-- ===== src/Routing/Fallback/Answers.antt =====
-- routing/fallback.py: what a run of `chat` makes of the answers of the adapters and of the clock.
use ai_inference_cost_optimi.Prelude.{
  ℕ, suc, ◌+◌, ◌-◌, ◌≤◌, ◌<◌, min, String, ◌≡◌, refl, ◌⊎◌, inl, inr, true, false, List, [], ◌∷◌,
  ◌++◌, arith, eqb, ltb, Bool-cases,
}
use ai_inference_cost_optimi.Prelude.Result.{Result, ok, err}
use ai_inference_cost_optimi.Models.Errors.{NormalizedError, normalized_error, AttemptOutcome}
use ai_inference_cost_optimi.Models.Domain.{CanonicalChatRequest, ProviderResult, RequestContext}
use ai_inference_cost_optimi.Config.Routing.{RoutingPolicy}
use ai_inference_cost_optimi.Adapters.{
  Adapters, Live, Answer, returned, raised, timed_out, crashed, Call, after, hangs, abide,
}
use ai_inference_cost_optimi.Routing.Policy.{RouteDecision}
use ai_inference_cost_optimi.Routing.Fallback.{
  Failure, provider_error, missing_provider, missing_adapter, unexpected, FallbackResult,
  deadline_error, succeeded, failed, may_fall_back, after_failure, settle, timeout_error, is_nil,
  permitted_providers, attempt, chat_from, chat,
}
use ai_inference_cost_optimi.Routing.Fallback.Trace.{
  failure, success, IsTimeout, Stays, nil_of, hint_cases, Trace, Trace-cons, Trace-end,
}
use ai_inference_cost_optimi.Routing.Fallback.Permitted.{chat_permitted}

-- A call that lasts at least so long.
abbrev pub Lasts : {A : Type 0} → ℕ → Call A → Type 0
Lasts n hangs = Unit
Lasts n (after took answer) = n ≤ took

-- A call fails within its limit by an error: it raises the error, it ends by a TimeoutError of its
-- own, or it lasts to the limit.
pub data FailsWith {A : Type 0} (limit : ℕ) : Call A → NormalizedError → ℕ → Type 0 where
  refused :
      {took : ℕ} {e : NormalizedError}
      → took < limit
      → FailsWith limit (after took (raised e)) e took
  itself :
      {took : ℕ} {e : NormalizedError}
      → took < limit
      → IsTimeout e
      → FailsWith limit (after took timed_out) e took
  late :
      {call : Call A} {e : NormalizedError}
      → Lasts limit call
      → IsTimeout e
      → FailsWith limit call e limit

-- What the timeout of an attempt makes of a call.
abbrev Ends : {A : Type 0} → ℕ → Call A → Answer A → ℕ → Type 0
Ends limit call (returned r) took = (call ≡ after took (returned r)) × (took < limit)
Ends limit call (raised e) took = FailsWith limit call e took
Ends limit call timed_out took = (e : NormalizedError) → IsTimeout e → FailsWith limit call e took
Ends limit call crashed took = (call ≡ after took crashed) × (took < limit)

in_time-Ends :
    {A : Type 0} (limit took : ℕ) (answer : Answer A)
    → took < limit
    → Ends limit (after took answer) answer took
in_time-Ends limit took (returned r) h = (refl, h)
in_time-Ends limit took (raised e) h = refused h
in_time-Ends limit took timed_out h = λ e t. itself h t
in_time-Ends limit took crashed h = (refl, h)

abide-Ends :
    {A : Type 0} (limit : ℕ) (call : Call A)
    → Ends limit call (abide limit call).0 (abide limit call).1
unfolding abide
abide-Ends limit hangs = λ e t. late tt t
abide-Ends limit (after took answer) = elim (Bool-cases (ltb took limit)) [
  | inl quick ↦ rw quick (in_time-Ends limit took answer (ground arith))
  | inr slow ↦ rw slow (λ e t. late (ground arith) t)
]

module _ {W : Type 0} (adapters : Adapters W) (policy : RoutingPolicy)
    (request : CanonicalChatRequest) (ctx : RequestContext) where
  -- The time that an attempt may take from `s` on, its call, and the state after it.
  abbrev pub limit_at : Live W → ℕ
  limit_at s = min policy.timeouts.per_attempt_timeout (ctx.deadline_at - s.now)

  abbrev pub call_of : String → Live W → Call ProviderResult
  call_of name s = (adapters.chat name request ctx s.world).0

  abbrev pub state_after : String → Live W → ℕ → Live W
  state_after name s took = record {
    now = s.now + took;
    world = (adapters.chat name request ctx s.world).1;
  }

  -- An attempt on a known provider fails by an error.
  abbrev pub Fails : String → Live W → NormalizedError → Live W → Type 0
  Fails name s error end =
      (took : ℕ) × (adapters.known name ≡ true)
      × FailsWith (limit_at s) (call_of name s) error took
      × (end ≡ state_after name s took)

  -- How a run ends in the state `s` with these providers left: a result is the answer of the next
  -- provider, in time; a ProviderError is a timeout error once the deadline has passed (or of a run
  -- without providers), or the failure of the next provider when no attempt may follow; a missing
  -- adapter is that of the next provider, and another exception is one of its call.
  abbrev pub Ending :
      ℕ
      → Live W
      → List String
      → List AttemptOutcome
      → Result Failure FallbackResult × Live W
      → Type 0
  Ending index s rest log (ok r, end) =
      (later : List String) × (took : ℕ) × (rest ≡ r.provider ∷ later)
      × (call_of r.provider s ≡ after took (returned r.result))
      × (took < limit_at s)
      × (end ≡ state_after r.provider s took)
      × (r.attempts ≡ log ++ success r.provider ∷ [])
      × (r.fallback_count ≡ index)
  Ending index s rest log (err (provider_error e), end) =
      (IsTimeout e.error
        × (e.attempts ≡ log)
        × (end ≡ s)
        × ((ctx.deadline_at ≤ s.now) ⊎ ((index ≡ 0) × (rest ≡ []))))
      ⊎ ((name : String) × (later : List String) × (rest ≡ name ∷ later)
          × Fails name s e.error end
          × (e.attempts ≡ log ++ failure name e.error ∷ [])
          × Stays policy ctx later e.error end)
  Ending index s rest log (err (missing_provider e), end) = ⊥
  Ending index s rest log (err (missing_adapter name), end) =
      (later : List String) × (rest ≡ name ∷ later) × (adapters.known name ≡ false) × (end ≡ s)
  Ending index s rest log (err unexpected, end) =
      (name : String) × (later : List String) × (took : ℕ) × (rest ≡ name ∷ later)
      × (call_of name s ≡ after took crashed)
      × (took < limit_at s)
      × (end ≡ state_after name s took)

  abbrev pub Traced :
      ℕ
      → Live W
      → List String
      → List AttemptOutcome
      → Result Failure FallbackResult × Live W
      → Type 0
  Traced index s names start r = Trace policy ctx Fails Ending index s names start r

  after_failure-Traced :
      (index : ℕ) (name : String) (rest : List String) (start : List AttemptOutcome)
      (error : NormalizedError) (s end : Live W)
      (next : Live W → Result Failure FallbackResult × Live W)
      → Fails name s error end
      → (is_nil rest ≡ false
          → (s' : Live W) → Traced (suc index) s' rest (start ++ failure name error ∷ []) (next s'))
      → Traced index s
          (name ∷ rest)
          start
          (after_failure policy ctx error (start ++ failure name error ∷ []) (is_nil rest) next end)
  unfolding after_failure
  after_failure-Traced index name rest start error s end next fails h =
      let stop : Stays policy ctx rest error end
          → Traced index s (name ∷ rest) start (
            err (
                provider_error
                  (record { error = error; attempts = start ++ failure name error ∷ [] })),
            end,
          ) =
        λ stays.
          Trace-end policy ctx Fails Ending index s (name ∷ rest) start _
            (inr (name, rest, refl, fails, refl, stays)) in
      elim (Bool-cases (is_nil rest)) [
        | inl last ↦ rw last (stop (inl (nil_of rest last)))
        | inr more ↦ elim (Bool-cases (may_fall_back policy error)) [
          | inr may ↦ rw (more, may) (stop (inr (inl may)))
          | inl may ↦ elim (hint_cases policy ctx error end) [
            | inl (go_on, waited) ↦
                rw (more, may, go_on)
                  (Trace-cons policy ctx Fails Ending index name error s end _ rest start _ fails
                    (may, waited) (h more _))
            | inr (cut, same, hint) ↦ rw (more, may, cut, same) (stop (inr (inr hint)))
          ]
        ]
      ]

  settle-Traced :
      (index : ℕ) (name : String) (rest : List String) (start : List AttemptOutcome) (s : Live W)
      (next : List AttemptOutcome → Live W → Result Failure FallbackResult × Live W)
      (answer : Answer ProviderResult) (took : ℕ)
      → adapters.known name ≡ true
      → Ends (limit_at s) (call_of name s) answer took
      → (is_nil rest ≡ false
          → (log : List AttemptOutcome) (s' : Live W)
          → Traced (suc index) s' rest log (next log s'))
      → Traced index s
          (name ∷ rest)
          start
          (settle policy ctx index name (is_nil rest) start next answer (state_after name s took))
  unfolding settle succeeded failed timeout_error normalized_error
  settle-Traced index name rest start s next (returned r) took known (call, quick) h =
      Trace-end policy ctx Fails Ending index s (name ∷ rest) start _
        (rest, took, refl, call, quick, refl, refl, refl)
  settle-Traced index name rest start s next (raised error) took known fails h =
      after_failure-Traced index name rest start error s _ (next _) (took, known, fails, refl)
        (λ more. h more _)
  settle-Traced index name rest start s next timed_out took known fails h =
      let error = timeout_error "provider attempt timed out" in
      after_failure-Traced index name rest start error s _ (next _)
        (took, known, fails error (refl, refl), refl) (λ more. h more _)
  settle-Traced index name rest start s next crashed took known (call, quick) h =
      Trace-end policy ctx Fails Ending index s (name ∷ rest) start _
        (name, rest, took, refl, call, quick, refl)

  chat_from-Traced :
      (index : ℕ) (names : List String) (start : List AttemptOutcome) (s : Live W)
      → (index ≡ 0) ⊎ (is_nil names ≡ false)
      → Traced index s names start (chat_from adapters policy request ctx index names start s)
  unfolding chat_from attempt deadline_error normalized_error
  chat_from-Traced index [] start s (inl first) =
      Trace-end policy ctx Fails Ending index s [] start _
        (inl ((refl, refl), refl, refl, inr (first, refl)))
  chat_from-Traced index [] start s (inr more) = absurd (cc)
  chat_from-Traced index (name ∷ rest) start s h =
      elim (Bool-cases (eqb (ctx.deadline_at - s.now) 0)) [
        | inl over ↦ rw over (
            Trace-end policy ctx Fails Ending index s (name ∷ rest) start _
              (inl ((refl, refl), refl, refl, inl (ground arith))))
        | inr left ↦ elim (Bool-cases (adapters.known name)) [
          | inr missing ↦
              rw (left, missing)
                (Trace-end policy ctx Fails Ending index s (name ∷ rest) start _
                  (rest, refl, missing, refl))
          | inl found ↦
              rw (left, found)
                (settle-Traced index name rest start s _ _ _ found
                  (abide-Ends (limit_at s) (call_of name s))
                  (λ more log s'. chat_from-Traced (suc index) rest log s' (inr more)))
        ]
      ]

-- A run tries the permitted providers in their order. Each attempt before the last failed by its
-- adapter's error, or by a timeout error if the adapter's call ended by a TimeoutError or lasted to
-- the attempt's limit; the error lets fall back, and the next attempt starts after the wait that it
-- asks for. The run ends by the next provider's answer in time; by its failure, if no provider is
-- left, the error does not let fall back or the wait would last until the deadline; by a timeout
-- error once the deadline has passed, or with no provider at all; by an exception that is no
-- ProviderError, of a call or of a provider without adapter. The log has one entry for each attempt
-- that failed, and one for the success.
pub chat-Traced :
    {W : Type 0} (adapters : Adapters W) (policy : RoutingPolicy) (request : CanonicalChatRequest)
    (ctx : RequestContext) (d : RouteDecision) (s : Live W) (names : List String)
    → permitted_providers policy d request.metadata.data_class ≡ ok names
    → Traced adapters policy request ctx 0 s names [] (chat adapters policy request ctx d s)
chat-Traced adapters policy request ctx d s names e =
    rw (chat_permitted policy request ctx d adapters s names e)
      (chat_from-Traced adapters policy request ctx 0 names [] s (inl refl))
