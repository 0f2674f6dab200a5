-- ===== src/Routing/Fallback/Report.antt =====
-- routing/fallback.py: what the outcome of `chat` says of the attempts that were made.
use mathlib.Core.List.{append-nil, append_assoc}
use ai_inference_cost_optimi.Prelude.{
  ℕ, suc, ◌+◌, ◌-◌, String, ◌≡◌, ◌≢◌, refl, sym, ap, ◌∙◌, ◌⊎◌, inl, inr, Bool, true, false, none,
  some, List, [], ◌∷◌, ◌++◌, arith, eqb, length, Bool-cases,
}
use ai_inference_cost_optimi.Prelude.Equality.{elem}
use ai_inference_cost_optimi.Prelude.Result.{Result, ok, err}
use ai_inference_cost_optimi.Models.Enums.{ErrorClass, error_eq}
use ai_inference_cost_optimi.Models.Errors.{NormalizedError, AttemptOutcome, ProviderError}
use ai_inference_cost_optimi.Models.Domain.{CanonicalChatRequest, ProviderResult, RequestContext}
use ai_inference_cost_optimi.Config.Routing.{RoutingPolicy}
use ai_inference_cost_optimi.Adapters.{Adapters, Live, Answer, returned, raised, timed_out, crashed}
use ai_inference_cost_optimi.Routing.Fallback.{
  Failure, provider_error, missing_provider, missing_adapter, unexpected, FallbackResult,
  deadline_error, succeeded, failed, may_fall_back, wait_for_retry_after, after_failure, settle,
  timeout_error, is_nil, chat_from,
}

-- The log of attempts that failed in turn on the given providers, each with an error that the
-- policy lets fall back.
abbrev pub Tried : RoutingPolicy → List String → List AttemptOutcome → Type 0
Tried policy [] [] = Unit
Tried policy (name ∷ names) (a ∷ log) =
    (a.provider ≡ name)
    × ((c : ErrorClass) × (a.error_class ≡ some c) × (elem c policy.fallback.on ≡ true))
    × Tried policy names log
Tried policy _ _ = ⊥

-- A result of the loop that starts at `index` with the log `start` and these providers left.
pub record IsAnswered (policy : RoutingPolicy) (index : ℕ) (names : List String)
    (start : List AttemptOutcome) (r : FallbackResult) : Type 0 where
  pub before : List String
  pub later : List String
  pub log : List AttemptOutcome
  pub split : names ≡ before ++ r.provider ∷ later
  pub tried : Tried policy before log
  pub logged : r.attempts ≡ start ++ (log ++ succeeded r.provider ∷ [])
  pub counted : r.fallback_count ≡ index + length before

-- Why the attempt on a provider was the last one.
abbrev pub Final : RoutingPolicy → List String → NormalizedError → Type 0
Final policy later error =
    (later ≡ []) ⊎ (may_fall_back policy error ≡ false) ⊎ (error.retry_after_seconds ≢ none)

-- The ending of a log: the deadline passed before an attempt, or the last attempt failed.
abbrev pub Ending :
    RoutingPolicy → List String → List AttemptOutcome → List AttemptOutcome → ProviderError → Type 0
Ending policy rest start log e =
    ((e.error ≡ deadline_error) × (e.attempts ≡ start ++ log))
    ⊎ ((name : String) × (later : List String) × (rest ≡ name ∷ later)
        × (e.attempts ≡ start ++ (log ++ failed name e.error ∷ []))
        × Final policy later e.error)

pub record IsExhausted (policy : RoutingPolicy) (names : List String) (start : List AttemptOutcome)
    (e : ProviderError) : Type 0 where
  pub before : List String
  pub rest : List String
  pub log : List AttemptOutcome
  pub split : names ≡ before ++ rest
  pub tried : Tried policy before log
  pub ending : Ending policy rest start log e

abbrev pub Report :
    (String → Bool)
    → RoutingPolicy
    → ℕ
    → List String
    → List AttemptOutcome
    → Result Failure FallbackResult
    → Type 0
Report known policy index names start (ok r) = IsAnswered policy index names start r
Report known policy index names start (err (provider_error e)) = IsExhausted policy names start e
Report known policy index names start (err (missing_provider e)) = ⊥
Report known policy index names start (err (missing_adapter name)) =
    (known name ≡ false)
    × ((before : List String) × (later : List String) × (names ≡ before ++ name ∷ later))
Report known policy index names start (err unexpected) = Unit

module _ (known : String → Bool) (policy : RoutingPolicy) where
  Ending-cons :
      (start : List AttemptOutcome) (a : AttemptOutcome) (rest : List String)
      (log : List AttemptOutcome) (e : ProviderError)
      → Ending policy rest (start ++ a ∷ []) log e
      → Ending policy rest start (a ∷ log) e
  Ending-cons start a rest log e (inl (same, logged)) =
      inl (same, logged ∙ append_assoc start (a ∷ []) log)
  Ending-cons start a rest log e (inr (name, later, split, logged, final)) =
      inr (name, later, split, logged ∙ append_assoc start (a ∷ []) _, final)

  -- One more provider before the loop, on which an attempt failed that lets fall back.
  Report-cons :
      (index : ℕ) (name : String) (error : NormalizedError) (names : List String)
      (start : List AttemptOutcome) (r : Result Failure FallbackResult)
      → may_fall_back policy error ≡ true
      → Report known policy (suc index) names (start ++ failed name error ∷ []) r
      → Report known policy index (name ∷ names) start r
  unfolding failed
  Report-cons index name error names start (ok r) may h = record {
    before = name ∷ h.before;
    later = h.later;
    log = failed name error ∷ h.log;
    split = ap (λ l. name ∷ l) h.split;
    tried = (refl, (error.error_class, refl, ground arith), h.tried);
    logged = h.logged ∙ append_assoc start (failed name error ∷ []) _;
    counted = h.counted ∙ omega arith;
  }
  Report-cons index name error names start (err (provider_error e)) may h = record {
    before = name ∷ h.before;
    rest = h.rest;
    log = failed name error ∷ h.log;
    split = ap (λ l. name ∷ l) h.split;
    tried = (refl, (error.error_class, refl, ground arith), h.tried);
    ending = Ending-cons start (failed name error) h.rest h.log e h.ending;
  }
  Report-cons index name error names start (err (missing_provider e)) may h = h
  Report-cons index name error names start (err (missing_adapter n)) may h =
      (h.0, (name ∷ h.1.0, h.1.1, ap (λ l. name ∷ l) h.1.2))
  Report-cons index name error names start (err unexpected) may h = tt

module _ {W : Type 0} (adapters : Adapters W) (policy : RoutingPolicy)
    (request : CanonicalChatRequest) (ctx : RequestContext) where
  abbrev Reports :
      ℕ → List String → List AttemptOutcome → Result Failure FallbackResult × Live W → Type 0
  Reports index names start r = Report adapters.known policy index names start r.0

  -- An attempt that failed and is the last.
  ends_here :
      (index : ℕ) (name : String) (rest : List String) (start : List AttemptOutcome)
      (error : NormalizedError)
      → Final policy rest error
      → IsExhausted policy
          (name ∷ rest)
          start
          (record { error = error; attempts = start ++ failed name error ∷ [] })
  ends_here index name rest start error final = record {
    before = [];
    rest = name ∷ rest;
    log = [];
    split = refl;
    tried = tt;
    ending = inr (name, rest, refl, refl, final);
  }

  -- A hint that leaves no time is the only reason not to wait.
  refused_hint :
      (error : NormalizedError) (s : Live W)
      → (wait_for_retry_after error ctx s).0 ≡ false
      → error.retry_after_seconds ≢ none
  unfolding wait_for_retry_after
  refused_hint error s h e = ground arith

  nil_of : (rest : List String) → is_nil rest ≡ true → rest ≡ []
  nil_of [] h = refl
  nil_of (x ∷ xs) h = cc

  after_failure-Report :
      (index : ℕ) (name : String) (rest : List String) (start : List AttemptOutcome)
      (error : NormalizedError) (next : Live W → Result Failure FallbackResult × Live W)
      (s : Live W)
      → ((s' : Live W) → Reports (suc index) rest (start ++ failed name error ∷ []) (next s'))
      → Reports index
          (name ∷ rest)
          start
          (after_failure policy ctx error (start ++ failed name error ∷ []) (is_nil rest) next s)
  unfolding after_failure
  after_failure-Report index name rest start error next s h = elim (Bool-cases (is_nil rest)) [
    | inl last ↦ rw last (ends_here index name rest start error (inl (nil_of rest last)))
    | inr more ↦ elim (Bool-cases (may_fall_back policy error)) [
      | inr may ↦ rw (more, may) (ends_here index name rest start error (inr (inl may)))
      | inl may ↦ elim (Bool-cases (wait_for_retry_after error ctx s).0) [
        | inl go_on ↦
            rw (more, may, go_on)
              (Report-cons adapters.known policy index name error rest start _ may (h _))
        | inr stop ↦
            rw (more, may, stop)
              (ends_here index name rest start error (inr (inr (refused_hint error s stop))))
      ]
    ]
  ]

  settle-Report :
      (index : ℕ) (name : String) (rest : List String) (start : List AttemptOutcome)
      (next : List AttemptOutcome → Live W → Result Failure FallbackResult × Live W)
      (answer : Answer ProviderResult) (s : Live W)
      → ((log : List AttemptOutcome) (s' : Live W) → Reports (suc index) rest log (next log s'))
      → Reports index
          (name ∷ rest)
          start
          (settle policy ctx index name (is_nil rest) start next answer s)
  unfolding settle
  settle-Report index name rest start next (returned result) s h = record {
    before = [];
    later = rest;
    log = [];
    split = refl;
    tried = tt;
    logged = refl;
    counted = omega arith;
  }
  settle-Report index name rest start next (raised error) s h =
      after_failure-Report index name rest start error (next _) s (h _)
  settle-Report index name rest start next timed_out s h =
      after_failure-Report index name rest start (timeout_error "provider attempt timed out")
        (next _) s (h _)
  settle-Report index name rest start next crashed s h = tt

  -- Whatever the adapters answer, the loop's outcome tells which providers were tried, in the order
  -- of the route, and why it ended.
  pub chat_from-Report :
      (index : ℕ) (names : List String) (start : List AttemptOutcome) (s : Live W)
      → Reports index names start (chat_from adapters policy request ctx index names start s)
  unfolding chat_from
  chat_from-Report index [] start s = record {
    before = [];
    rest = [];
    log = [];
    split = refl;
    tried = tt;
    ending = inl (refl, sym (append-nil start));
  }
  chat_from-Report index (name ∷ rest) start s =
      elim (Bool-cases (eqb (ctx.deadline_at - s.now) 0)) [
        | inl over ↦ rw over (record {
          before = [];
          rest = name ∷ rest;
          log = [];
          split = refl;
          tried = tt;
          ending = inl (refl, sym (append-nil start));
        })
        | inr left ↦ elim (Bool-cases (adapters.known name)) [
          | inr missing ↦ rw (left, missing) (missing, ([], rest, refl))
          | inl found ↦
              rw (left, found)
                (settle-Report index name rest start _ _ _
                  (λ log s'. chat_from-Report (suc index) rest log s'))
        ]
      ]
