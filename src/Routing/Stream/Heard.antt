-- ===== src/Routing/Stream/Heard.antt =====
-- routing/fallback.py: what an attempt of `stream` hears of the stream of a provider.
use ai_inference_cost_optimi.Prelude.{
  ℕ, ◌+◌, ◌-◌, ◌≤◌, ◌<◌, min, ◌≡◌, refl, sym, subst, inl, inr, Bool, true, List, [], ◌∷◌, arith,
  eqb, ltb, if◌then◌else◌, Bool-cases,
}
use ai_inference_cost_optimi.Models.Enums.{error_eq}
use ai_inference_cost_optimi.Models.Errors.{NormalizedError, normalized_error}
use ai_inference_cost_optimi.Models.Domain.{ProviderChunk, RequestContext}
use ai_inference_cost_optimi.Config.Routing.{RoutingPolicy}
use ai_inference_cost_optimi.Adapters.{
  Answer, returned, raised, timed_out, crashed, Call, after, hangs, Feed, ends, yields, abide,
}
use ai_inference_cost_optimi.Routing.Fallback.{timeout_error}
use ai_inference_cost_optimi.Routing.Fallback.Trace.{IsTimeout}
use ai_inference_cost_optimi.Routing.Fallback.Answers.{Lasts}
use ai_inference_cost_optimi.Routing.Stream.{
  End, finished, broken, lost, Played, end_of, budget, play,
}

-- The wait for the next item of a stream lasts at least so long.
abbrev Slow : ℕ → Feed → Type 0
Slow n (ends call) = Lasts n call
Slow n (yields took c feed) = n ≤ took

module _ (pace : ProviderChunk → ℕ) (policy : RoutingPolicy) (ctx : RequestContext)
    (attempt_deadline : ℕ) where
  -- The time for the next item: that for the first one or between two, up to the deadline of the
  -- request and to that of the attempt.
  abbrev pub window : Bool → ℕ → ℕ
  window started now =
      min
        (if started
          then policy.timeouts.stream_idle_timeout
          else policy.timeouts.response_header_timeout)
        (min (ctx.deadline_at - now) (attempt_deadline - now))

  -- The chunks that are heard of a feed from a time on, how the attempt ends, and when: by the feed's
  -- own end in time, or by a timeout error when the next item takes too long.
  pub data Heard : Bool → ℕ → Feed → List ProviderChunk → End → ℕ → Type 0 where
    over :
        {started : Bool} {now took : ℕ} {u : Unit {0}}
        → took < window started now
        → Heard started now (ends (after took (returned u))) [] finished (now + took)
    refused :
        {started : Bool} {now took : ℕ} {e : NormalizedError}
        → took < window started now
        → Heard started now (ends (after took (raised e))) [] (broken e) (now + took)
    itself :
        {started : Bool} {now took : ℕ} {e : NormalizedError}
        → took < window started now
        → IsTimeout e
        → Heard started now (ends (after took timed_out)) [] (broken e) (now + took)
    other :
        {started : Bool} {now took : ℕ}
        → took < window started now
        → Heard started now (ends (after took crashed)) [] lost (now + took)
    late :
        {started : Bool} {now : ℕ} {feed : Feed} {e : NormalizedError}
        → Slow (window started now) feed
        → IsTimeout e
        → Heard started now feed [] (broken e) (now + window started now)
    chunk :
        {started : Bool} {now took at : ℕ} {c : ProviderChunk} {feed : Feed}
        {cs : List ProviderChunk} {end : End}
        → took < window started now
        → Heard true (now + took + pace c) feed cs end at
        → Heard started now (yields took c feed) (c ∷ cs) end at

  abbrev Hears : Bool → ℕ → Feed → Played → Type 0
  Hears started now feed p = Heard started now feed p.chunks p.end p.at

  in_time-Heard :
      (started : Bool) (now took : ℕ) (answer : Answer (Unit {0}))
      → took < window started now
      → Heard started now (ends (after took answer)) [] (end_of answer) (now + took)
  unfolding end_of timeout_error normalized_error
  in_time-Heard started now took (returned u) h = over h
  in_time-Heard started now took (raised e) h = refused h
  in_time-Heard started now took timed_out h = itself h (refl, refl)
  in_time-Heard started now took crashed h = other h

  -- No time is left for the next item.
  at_once :
      (started : Bool) (now : ℕ) (feed : Feed) (e : NormalizedError)
      → window started now ≡ 0
      → IsTimeout e
      → Heard started now feed [] (broken e) now
  at_once started now feed e none_left h =
      let same : now + window started now ≡ now = omega (arith, none_left) in
      subst (Heard started now feed [] (broken e)) same
        (late (subst (λ n. Slow n feed) (sym none_left) (slow feed)) h)
    where
      slow_call : (call : Call (Unit {0})) → Lasts 0 call
      slow_call hangs = tt
      slow_call (after took answer) = omega arith

      slow : (feed : Feed) → Slow 0 feed
      slow (ends call) = slow_call call
      slow (yields took c feed) = omega arith

  call-Heard :
      (started : Bool) (now : ℕ) (call : Call (Unit {0}))
      → Heard started now
          (ends call)
          []
          (end_of (abide (window started now) call).0)
          (now + (abide (window started now) call).1)
  unfolding end_of timeout_error normalized_error abide
  call-Heard started now hangs = late tt (refl, refl)
  call-Heard started now (after took answer) = elim (Bool-cases (ltb took (window started now))) [
    | inl quick ↦ rw quick (in_time-Heard started now took answer (ground arith))
    | inr slow ↦ rw slow (late (ground arith) (refl, refl))
  ]

  pub play-Heard :
      (started : Bool) (now : ℕ) (feed : Feed)
      → Hears started now feed (play pace policy ctx attempt_deadline started now feed)
  unfolding play budget timeout_error normalized_error
  play-Heard started now (ends call) = elim (Bool-cases (eqb (window started now) 0)) [
    | inl none_left ↦ rw none_left (at_once started now (ends call) _ (ground arith) (refl, refl))
    | inr left ↦ rw left (call-Heard started now call)
  ]
  play-Heard started now (yields took c feed) = elim (Bool-cases (eqb (window started now) 0)) [
    | inl none_left ↦
        rw none_left (at_once started now (yields took c feed) _ (ground arith) (refl, refl))
    | inr left ↦ elim (Bool-cases (ltb took (window started now))) [
      | inl quick ↦
          rw (left, quick) (chunk (ground arith) (play-Heard true (now + took + pace c) feed))
      | inr slow ↦ rw (left, slow) (late (ground arith) (refl, refl))
    ]
  ]
