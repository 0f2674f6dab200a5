-- ===== src/Routing/Stream/Replay.antt =====
-- routing/fallback.py: a stream comes from one provider, and nothing is replayed once it began.
use ai_inference_cost_optimi.Prelude.{
  ℕ, suc, ◌+◌, ◌-◌, ◌≤◌, String, ◌≡◌, refl, ◌⊎◌, inl, inr, true, false, List, [], ◌∷◌, ◌++◌, arith,
  eqb, Bool-cases,
}
use ai_inference_cost_optimi.Prelude.Result.{ok, err}
use ai_inference_cost_optimi.Models.Enums.{stream_started_failure}
use ai_inference_cost_optimi.Models.Errors.{NormalizedError, normalized_error, AttemptOutcome}
use ai_inference_cost_optimi.Models.Domain.{CanonicalChatRequest, ProviderChunk, RequestContext}
use ai_inference_cost_optimi.Config.Routing.{RoutingPolicy}
use ai_inference_cost_optimi.Adapters.{Adapters, Live}
use ai_inference_cost_optimi.Routing.Policy.{RouteDecision}
use ai_inference_cost_optimi.Routing.Fallback.{
  provider_error, missing_adapter, unexpected, deadline_error, succeeded, failed, may_fall_back,
  is_nil, permitted_providers,
}
use ai_inference_cost_optimi.Routing.Fallback.Trace.{
  failure, success, IsTimeout, Stays, nil_of, hint_cases, Trace, Trace-cons, Trace-end,
}
use ai_inference_cost_optimi.Routing.Stream.{
  End, finished, broken, lost, StreamRun, no_replay_error, label, after_silence, conclude,
  stream_attempt, stream_from, stream,
}
use ai_inference_cost_optimi.Routing.Stream.Heard.{Heard, play-Heard}

abbrev Raises : {W : Type 0} → NormalizedError → StreamRun W → Type 0
Raises e run = run.outcome ≡ err (provider_error (record { error = e; attempts = run.log }))

module _ {W : Type 0} (pace : ProviderChunk → ℕ) (adapters : Adapters W) (policy : RoutingPolicy)
    (request : CanonicalChatRequest) (ctx : RequestContext) where
  -- One attempt on a known provider: the chunks that are heard of its stream, and how it ends.
  abbrev pub Plays : String → Live W → List ProviderChunk → End → Live W → Type 0
  Plays name s chunks end s' =
      let (feed, world) = adapters.stream name request ctx s.world in
      (adapters.known name ≡ true)
      × Heard pace policy ctx (s.now + policy.timeouts.per_attempt_timeout) false s.now feed chunks
          end s'.now
      × (s'.world ≡ world)

  -- An attempt that fails before its first chunk.
  abbrev pub FailsSilently : String → Live W → NormalizedError → Live W → Type 0
  FailsSilently name s error s' = Plays name s [] (broken error) s'

  -- The attempt that ends a run: it finished the stream, left by an exception that is no
  -- ProviderError, or broke. Broken before its first chunk it raises its own error, if no attempt may
  -- follow, and afterwards the error that forbids a replay.
  abbrev pub LastAttempt :
      String → List String → List ProviderChunk → End → List AttemptOutcome → StreamRun W → Type 0
  LastAttempt name later chunks finished log run =
      (run.outcome ≡ ok tt) × (run.log ≡ log ++ success name ∷ [])
  LastAttempt name later chunks lost log run = (run.outcome ≡ err unexpected) × (run.log ≡ log)
  LastAttempt name later [] (broken error) log run =
      Raises error run
      × (run.log ≡ log ++ failure name error ∷ [])
      × Stays policy ctx later error run.live
  LastAttempt name later (c ∷ cs) (broken error) log run =
      ((e : NormalizedError) × Raises e run × (e.error_class ≡ stream_started_failure))
      × (run.log ≡ log ++ failure name error ∷ [])

  -- A run ends between attempts, with nothing yielded, by a timeout error once the deadline has passed
  -- (or of a run without providers), or by the next provider: one without adapter, or one whose chunks
  -- are all that the run yields, under the number of the attempt.
  abbrev pub StreamEnding : ℕ → Live W → List String → List AttemptOutcome → StreamRun W → Type 0
  StreamEnding index s rest log run =
      ((run.items ≡ [])
        × (run.log ≡ log)
        × (run.live ≡ s)
        × ((e : NormalizedError) × Raises e run × IsTimeout e)
        × ((ctx.deadline_at ≤ s.now) ⊎ ((index ≡ 0) × (rest ≡ []))))
      ⊎ ((name : String) × (later : List String) × (rest ≡ name ∷ later)
          × ((run.items ≡ [])
                × (run.log ≡ log)
                × (run.live ≡ s)
                × (run.outcome ≡ err (missing_adapter name))
                × (adapters.known name ≡ false)
              ⊎ ((chunks : List ProviderChunk) × (end : End) × Plays name s chunks end run.live
                  × (run.items ≡ label name index chunks)
                  × LastAttempt name later chunks end log run)))

  abbrev pub IsStreamed : ℕ → Live W → List String → List AttemptOutcome → StreamRun W → Type 0
  IsStreamed index s names start run =
      Trace policy ctx FailsSilently StreamEnding index s names start run

  ends_now :
      (index : ℕ) (name : String) (rest : List String) (start : List AttemptOutcome) (s : Live W)
      (chunks : List ProviderChunk) (end : End) (run : StreamRun W)
      → Plays name s chunks end run.live
      → run.items ≡ label name index chunks
      → LastAttempt name rest chunks end start run
      → IsStreamed index s (name ∷ rest) start run
  ends_now index name rest start s chunks end run plays items last =
      Trace-end policy ctx FailsSilently StreamEnding index s (name ∷ rest) start run
        (inr (name, rest, refl, inr (chunks, end, plays, items, last)))

  after_silence-IsStreamed :
      (index : ℕ) (name : String) (rest : List String) (start : List AttemptOutcome)
      (error : NormalizedError) (s end : Live W) (next : Live W → StreamRun W)
      → FailsSilently name s error end
      → (is_nil rest ≡ false
          → (s' : Live W)
          → IsStreamed (suc index) s' rest (start ++ failure name error ∷ []) (next s'))
      → IsStreamed index s
          (name ∷ rest)
          start
          (after_silence policy ctx error (start ++ failure name error ∷ []) (is_nil rest) next end)
  unfolding after_silence
  after_silence-IsStreamed index name rest start error s end next fails h =
      let log = start ++ failure name error ∷ [] in
      let stop : Stays policy ctx rest error end
          → IsStreamed index s (name ∷ rest) start (record {
            items = [];
            outcome = err (provider_error (record { error = error; attempts = log }));
            log = log;
            live = end;
          }) =
        λ stays.
          ends_now index name rest start s [] (broken error) _ fails refl (refl, refl, stays) in
      elim (Bool-cases (is_nil rest)) [
        | inl last ↦ rw last (stop (inl (nil_of rest last)))
        | inr more ↦ elim (Bool-cases (may_fall_back policy error)) [
          | inr may ↦ rw (more, may) (stop (inr (inl may)))
          | inl may ↦ elim (hint_cases policy ctx error end) [
            | inl (go_on, waited) ↦
                rw (more, may, go_on)
                  (Trace-cons policy ctx FailsSilently StreamEnding index name error s end _ rest
                    start _ fails (may, waited) (h more _))
            | inr (cut, same, hint) ↦ rw (more, may, cut, same) (stop (inr (inr hint)))
          ]
        ]
      ]

  conclude-IsStreamed :
      (index : ℕ) (name : String) (rest : List String) (start : List AttemptOutcome)
      (next : List AttemptOutcome → Live W → StreamRun W) (chunks : List ProviderChunk) (end : End)
      (s s' : Live W)
      → Plays name s chunks end s'
      → (is_nil rest ≡ false
          → (log : List AttemptOutcome) (s' : Live W)
          → IsStreamed (suc index) s' rest log (next log s'))
      → IsStreamed index s
          (name ∷ rest)
          start
          (conclude policy ctx index name (is_nil rest) start next chunks end s')
  unfolding conclude succeeded failed no_replay_error normalized_error
  conclude-IsStreamed index name rest start next chunks finished s s' plays h =
      ends_now index name rest start s chunks finished _ plays refl (refl, refl)
  conclude-IsStreamed index name rest start next chunks lost s s' plays h =
      ends_now index name rest start s chunks lost _ plays refl (refl, refl)
  conclude-IsStreamed index name rest start next [] (broken error) s s' plays h =
      after_silence-IsStreamed index name rest start error s s' (next _) plays (λ more. h more _)
  conclude-IsStreamed index name rest start next (c ∷ cs) (broken error) s s' plays h =
      ends_now index name rest start s (c ∷ cs) (broken error) _ plays refl
        ((no_replay_error, refl, refl), refl)

  stream_from-IsStreamed :
      (index : ℕ) (names : List String) (start : List AttemptOutcome) (s : Live W)
      → (index ≡ 0) ⊎ (is_nil names ≡ false)
      → IsStreamed index s names start
          (stream_from pace adapters policy request ctx index names start s)
  unfolding stream_from stream_attempt deadline_error normalized_error
  stream_from-IsStreamed index [] start s (inl first) =
      Trace-end policy ctx FailsSilently StreamEnding index s [] start _
        (inl (refl, refl, refl, (deadline_error, refl, (refl, refl)), inr (first, refl)))
  stream_from-IsStreamed index [] start s (inr more) = absurd (cc)
  stream_from-IsStreamed index (name ∷ rest) start s h =
      elim (Bool-cases (eqb (ctx.deadline_at - s.now) 0)) [
        | inl over ↦ rw over (
            Trace-end policy ctx FailsSilently StreamEnding index s (name ∷ rest) start _
              (inl (refl, refl, refl, (deadline_error, refl, (refl, refl)), inl (ground arith))))
        | inr left ↦ elim (Bool-cases (adapters.known name)) [
          | inr missing ↦
              rw (left, missing)
                (Trace-end policy ctx FailsSilently StreamEnding index s (name ∷ rest) start _
                  (inr (name, rest, refl, inl (refl, refl, refl, refl, missing))))
          | inl found ↦
              rw (left, found)
                (conclude-IsStreamed index name rest start _ _ _ s _
                  (
                    found,
                    play-Heard pace policy ctx (s.now + policy.timeouts.per_attempt_timeout) false
                        s.now _,
                    refl,
                  )
                  (λ more log s'. stream_from-IsStreamed (suc index) rest log s' (inr more)))
        ]
      ]

-- Whatever the providers send, all the chunks of a run are those that were heard, in time, of the
-- stream of one provider of the permitted route, under the number of its attempt. The attempts before
-- it failed before their first chunk, each by the error of its stream or by a timeout error of one
-- that was too slow, let fall back and were waited for. A run succeeds exactly if that last stream
-- ended in time by itself; one that breaks before its first chunk, with no attempt to follow, ends by
-- its own error, and one that breaks after a chunk by the error that forbids a replay. A run that ends
-- between two attempts yields nothing, and ends by a missing adapter, or by a timeout error once the
-- deadline has passed or with no provider at all.
pub stream-IsStreamed :
    {W : Type 0} (pace : ProviderChunk → ℕ) (adapters : Adapters W) (policy : RoutingPolicy)
    (request : CanonicalChatRequest) (ctx : RequestContext) (d : RouteDecision) (s : Live W)
    (names : List String)
    → permitted_providers policy d request.metadata.data_class ≡ ok names
    → IsStreamed pace adapters policy request ctx 0 s names []
        (stream pace adapters policy request ctx d s)
unfolding stream
stream-IsStreamed pace adapters policy request ctx d s names e =
    rw (e, stream) (stream_from-IsStreamed pace adapters policy request ctx 0 names [] s (inl refl))
