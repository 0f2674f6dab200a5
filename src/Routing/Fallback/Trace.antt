-- ===== src/Routing/Fallback/Trace.antt =====
-- routing/fallback.py: the attempts of a run before its last one, for whole responses and for streams.
-- How an attempt fails is a parameter; the state of the adapters and the clock go from one to the next.
use mathlib.Core.List.{append-nil, append_assoc}
use ai_inference_cost_optimi.Prelude.{
  ℕ, suc, ◌+◌, ◌-◌, ◌≤◌, ◌<◌, min, String, ◌≡◌, refl, ap, ◌⊎◌, inl, inr, Bool, true, false, ◌&&◌,
  Option, none, some, List, [], ◌∷◌, ◌++◌, arith, eqb, length, Bool-cases, Option-cases,
}
use ai_inference_cost_optimi.Prelude.Equality.{elem}
use ai_inference_cost_optimi.Models.Enums.{timeout, error_eq}
use ai_inference_cost_optimi.Models.Errors.{NormalizedError, AttemptOutcome}
use ai_inference_cost_optimi.Models.Domain.{RequestContext}
use ai_inference_cost_optimi.Config.Routing.{RoutingPolicy}
use ai_inference_cost_optimi.Adapters.{Live}
use ai_inference_cost_optimi.Routing.Fallback.{wait_for_retry_after, is_nil}

-- The records of a failure and of a success.
abbrev pub failure : String → NormalizedError → AttemptOutcome
failure name error = record {
  provider = name;
  error_class = some error.error_class;
  retry_after_seconds = error.retry_after_seconds;
}

abbrev pub success : String → AttemptOutcome
success name = record { provider = name; error_class = none; retry_after_seconds = none }

-- An error of the executor's own clock.
abbrev pub IsTimeout : NormalizedError → Type 0
IsTimeout e = (e.error_class ≡ timeout) × (e.retry_after_seconds ≡ none)

-- The error lets fall back, by its own flag and by the policy.
abbrev pub lets_fall_back : RoutingPolicy → NormalizedError → Bool
lets_fall_back policy e = e.fallback_eligible && elem e.error_class policy.fallback.on

abbrev Waits : {W : Type 0} → RequestContext → Option ℕ → Live W → Live W → Type 0
Waits ctx none s s' = s' ≡ s
Waits ctx (some hint) s s' =
    (s.now + hint < ctx.deadline_at) × (s' ≡ record s { now = s.now + hint })

-- After a failure in `s` the next attempt starts in `s'`: after the wait that the provider asked for,
-- which ends before the deadline.
abbrev pub GoesOn :
    {W : Type 0} → RoutingPolicy → RequestContext → NormalizedError → Live W → Live W → Type 0
GoesOn policy ctx error s s' =
    (lets_fall_back policy error ≡ true) × Waits ctx error.retry_after_seconds s s'

-- Why no attempt follows: no provider is left, the error does not let fall back, or the wait would
-- last until the deadline.
abbrev pub Stays :
    {W : Type 0} → RoutingPolicy → RequestContext → List String → NormalizedError → Live W → Type 0
Stays policy ctx later error s =
    (later ≡ [])
    ⊎ (lets_fall_back policy error ≡ false)
    ⊎ ((hint : ℕ) × (error.retry_after_seconds ≡ some hint) × (ctx.deadline_at ≤ s.now + hint))

pub nil_of : (rest : List String) → is_nil rest ≡ true → rest ≡ []
nil_of [] h = refl
nil_of (x ∷ xs) h = cc

module _ {W : Type 0} (policy : RoutingPolicy) (ctx : RequestContext) where
  -- What a wait comes to: it ends, or there is no time for it.
  abbrev Waited : NormalizedError → Live W → Bool × Live W → Type 0
  Waited error s r =
      ((r.0 ≡ true) × Waits ctx error.retry_after_seconds s r.1)
      ⊎ ((r.0 ≡ false)
          × (r.1 ≡ s)
          × ((hint : ℕ) × (error.retry_after_seconds ≡ some hint)
              × (ctx.deadline_at ≤ s.now + hint)))

  pub hint_cases :
      (error : NormalizedError) (s : Live W) → Waited error s (wait_for_retry_after error ctx s)
  unfolding wait_for_retry_after
  hint_cases error s = elim (Option-cases error.retry_after_seconds) [
    | inl e ↦ rw e (inl (refl, refl))
    | inr (hint, e) ↦
        elim (Bool-cases (eqb (ctx.deadline_at - s.now - min hint (ctx.deadline_at - s.now)) 0)) [
          | inl late ↦ rw (e, late) (inr (refl, refl, (hint, refl, ground arith)))
          | inr left ↦
              let whole : min hint (ctx.deadline_at - s.now) ≡ hint = ground arith in
              rw (e, left)
                (inl (refl, (ground arith, ap (λ n. record s { now = s.now + n }) whole)))
        ]
  ]

module _ {W R : Type 0} (policy : RoutingPolicy) (ctx : RequestContext)
    (Attempt : String → Live W → NormalizedError → Live W → Type 0)
    (Ending : ℕ → Live W → List String → List AttemptOutcome → R → Type 0) where
  -- Attempts from the state `s` to the state `s'`: each failed, by an error that lets fall back.
  abbrev pub Tried : Live W → List String → List AttemptOutcome → Live W → Type 0
  Tried s [] [] s' = s' ≡ s
  Tried s (name ∷ names) (a ∷ log) s' =
      (error : NormalizedError) × (end : Live W) × (next : Live W) × (a ≡ failure name error)
      × Attempt name s error end
      × GoesOn policy ctx error end next
      × Tried next names log s'
  Tried s _ _ s' = ⊥

  -- A run from the attempt with number `index` on, with the log `start` and these providers left: some
  -- were tried, and the run ended in the state after them.
  pub record Trace (index : ℕ) (s : Live W) (names : List String) (start : List AttemptOutcome)
      (r : R) : Type 0 where
    pub before : List String
    pub rest : List String
    pub log : List AttemptOutcome
    pub at : Live W
    pub split : names ≡ before ++ rest
    pub tried : Tried s before log at
    pub ending : Ending (index + length before) at rest (start ++ log) r

  pub Trace-cons :
      (index : ℕ) (name : String) (error : NormalizedError) (s end next : Live W)
      (names : List String) (start : List AttemptOutcome) (r : R)
      → Attempt name s error end
      → GoesOn policy ctx error end next
      → Trace (suc index) next names (start ++ failure name error ∷ []) r
      → Trace index s (name ∷ names) start r
  Trace-cons index name error s end next names start r failed goes h =
      let here : index + length (name ∷ h.before) ≡ suc index + length h.before = omega arith in
      record {
        before = name ∷ h.before;
        rest = h.rest;
        log = failure name error ∷ h.log;
        at = h.at;
        split = ap (λ l. name ∷ l) h.split;
        tried = (error, end, next, refl, failed, goes, h.tried);
        ending = rw (here, ← append_assoc start (failure name error ∷ []) h.log) h.ending;
      }

  -- A run that ends at once.
  pub Trace-end :
      (index : ℕ) (s : Live W) (names : List String) (start : List AttemptOutcome) (r : R)
      → Ending index s names start r
      → Trace index s names start r
  Trace-end index s names start r h =
      let here : index + 0 ≡ index = omega arith in
      record {
        before = [];
        rest = names;
        log = [];
        at = s;
        split = refl;
        tried = refl;
        ending = rw (here, append-nil start) h;
      }
