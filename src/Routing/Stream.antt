-- ===== src/Routing/Stream.antt =====
-- routing/fallback.py: the executor's attempts along a route, for a streamed response. The
-- generator is run to its end: `pace` is the time its consumer takes over a chunk before it asks
-- for the next one. `datetime.now` and `loop.time` read one clock, and closing a stream takes no
-- time.
pub mod Heard
pub mod Replay
pub mod Permitted
mod Examples
use ai_inference_cost_optimi.Prelude.{
  ℕ, suc, ◌+◌, ◌-◌, min, String, Bool, true, false, not, ◌||◌, Option, none, some, List, [], ◌∷◌,
  ◌++◌, map, eqb, ltb, if◌then◌else◌,
}
use ai_inference_cost_optimi.Prelude.Result.{Result, ok, err}
use ai_inference_cost_optimi.Models.Enums.{stream_started_failure}
use ai_inference_cost_optimi.Models.Errors.{NormalizedError, normalized_error, AttemptOutcome}
use ai_inference_cost_optimi.Models.Domain.{CanonicalChatRequest, ProviderChunk, RequestContext}
use ai_inference_cost_optimi.Config.Routing.{RoutingPolicy}
use ai_inference_cost_optimi.Adapters.{
  Adapters, Live, Answer, returned, raised, timed_out, crashed, Call, after, hangs, Feed, ends,
  yields, abide,
}
use ai_inference_cost_optimi.Routing.Policy.{RouteDecision}
use ai_inference_cost_optimi.Routing.Fallback.{
  Failure, missing_provider, missing_adapter, unexpected, raise_with, deadline_error, timeout_error,
  succeeded, failed, permitted_providers, may_fall_back, wait_for_retry_after, is_nil,
}

-- How the `while True` of one attempt is left.
pub data End : Type 0 where
  finished : End
  broken : NormalizedError → End
  lost : End

-- The chunks that one attempt yields, how it ends, and when.
pub record Played : Type 0 where
  pub chunks : List ProviderChunk
  pub end : End
  pub at : ℕ

-- The end of an attempt by how `anext` ends, when it brings no chunk.
pub end_of : Answer (Unit {0}) → End
unfolding timeout_error
end_of (returned u) = finished
end_of (raised error) = broken error
end_of timed_out = broken (timeout_error "provider stream timed out")
end_of crashed = lost

pub record StreamRun (W : Type 0) : Type 0 where
  pub items : List (String × ℕ × ProviderChunk)
  pub outcome : Result Failure (Unit {0})
  pub log : List AttemptOutcome
  pub live : Live W

pub no_replay_error : NormalizedError
unfolding normalized_error
no_replay_error =
    normalized_error stream_started_failure "provider failed after streaming began; no replay" none
      none

abbrev pub nothing_yet : List ProviderChunk → Bool
nothing_yet [] = true
nothing_yet (c ∷ cs) = false

module _ (pace : ProviderChunk → ℕ) (policy : RoutingPolicy) (ctx : RequestContext)
    (attempt_deadline : ℕ) where
  -- `budget` at the head of the loop.
  pub budget : Bool → ℕ → ℕ
  budget started now =
      min
        (if started
          then policy.timeouts.stream_idle_timeout
          else policy.timeouts.response_header_timeout)
        (min (ctx.deadline_at - now) (attempt_deadline - now))

  abbrev pub stop : End → ℕ → Played
  stop end at = record { chunks = []; end = end; at = at }

  -- One round: the time runs out, `anext` ends the stream, or it brings a chunk.
  pub play : Bool → ℕ → Feed → Played
  unfolding budget timeout_error abide end_of
  play started now (ends call) =
      let b = budget started now in
      if eqb b 0
      then stop (broken (timeout_error "provider attempt budget exhausted")) now
      else (let (answer, took) = abide b call in stop (end_of answer) (now + took))
  play started now (yields took chunk feed) =
      let b = budget started now in
      let more = play true (now + took + pace chunk) feed in
      if eqb b 0
      then stop (broken (timeout_error "provider attempt budget exhausted")) now
      else if ltb took b
      then record more { chunks = chunk ∷ more.chunks }
      else stop (broken (timeout_error "provider stream timed out")) (now + b)

-- What an attempt yields, labelled with its provider and index.
abbrev pub label : String → ℕ → List ProviderChunk → List (String × ℕ × ProviderChunk)
label name index = map (λ c. (name, index, c))

module _ {W : Type 0} (policy : RoutingPolicy) (ctx : RequestContext) where
  -- An attempt that ended before its first chunk, by `error`: `next` is the rest of the loop.
  pub after_silence :
      NormalizedError → List AttemptOutcome → Bool → (Live W → StreamRun W) → Live W → StreamRun W
  unfolding raise_with
  after_silence error log is_last next s =
      if is_last || not (may_fall_back policy error)
      then record { items = []; outcome = raise_with error log; log = log; live = s }
      else (let (go_on, s') = wait_for_retry_after error ctx s in
          if go_on
          then next s'
          else record { items = []; outcome = raise_with error log; log = log; live = s' })

  -- What follows one attempt, by the chunks that it yielded and its end.
  pub conclude :
      ℕ
      → String
      → Bool
      → List AttemptOutcome
      → (List AttemptOutcome → Live W → StreamRun W)
      → List ProviderChunk
      → End
      → Live W
      → StreamRun W
  unfolding raise_with
  conclude index name is_last attempts next chunks finished s =
      let log = attempts ++ succeeded name ∷ [] in
      record { items = label name index chunks; outcome = ok tt; log = log; live = s }
  conclude index name is_last attempts next chunks lost s = record {
    items = label name index chunks;
    outcome = err unexpected;
    log = attempts;
    live = s;
  }
  conclude index name is_last attempts next chunks (broken error) s =
      let log = attempts ++ failed name error ∷ [] in
      if nothing_yet chunks then after_silence error log is_last (next log) s else record {
        items = label name index chunks;
        outcome = raise_with no_replay_error log;
        log = log;
        live = s;
      }

module _ {W : Type 0} (pace : ProviderChunk → ℕ) (adapters : Adapters W) (policy : RoutingPolicy)
    (request : CanonicalChatRequest) (ctx : RequestContext) where
  -- One attempt: the stream is opened and played.
  pub stream_attempt : String → Live W → Played × Live W
  stream_attempt name s =
      let (feed, world) = adapters.stream name request ctx s.world in
      let played =
        play pace policy ctx (s.now + policy.timeouts.per_attempt_timeout) false s.now feed in
      (played, record { now = played.at; world = world })

  -- The loop over the providers from `index` on.
  pub stream_from : ℕ → List String → List AttemptOutcome → Live W → StreamRun W
  unfolding raise_with
  stream_from index [] attempts s = record {
    items = [];
    outcome = raise_with deadline_error attempts;
    log = attempts;
    live = s;
  }
  stream_from index (name ∷ rest) attempts s =
      if eqb (ctx.deadline_at - s.now) 0
      then record {
        items = [];
        outcome = raise_with deadline_error attempts;
        log = attempts;
        live = s;
      }
      else if not (adapters.known name)
      then record { items = []; outcome = err (missing_adapter name); log = attempts; live = s }
      else (let (played, s') = stream_attempt name s in
          conclude policy ctx index name (is_nil rest) attempts (stream_from (suc index) rest)
            played.chunks played.end s')

  -- `FallbackExecutor.stream` with an empty `attempt_log`
  pub stream : RouteDecision → Live W → StreamRun W
  stream decision s = elim (permitted_providers policy decision request.metadata.data_class) [
    | err e ↦ record { items = []; outcome = err (missing_provider e); log = []; live = s }
    | ok names ↦ stream_from 0 names [] s
  ]
