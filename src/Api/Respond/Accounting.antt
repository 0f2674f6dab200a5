-- ===== src/Api/Respond/Accounting.antt =====
-- api/routes.py: every routed request is counted once.
use ai_inference_cost_optimi.Prelude.{
  ℕ, ◌-◌, String, ◌≡◌, refl, ◌⊎◌, inl, inr, Bool, true, false, not, ◌&&◌, Option, none, some, List,
  [], ◌∷◌, arith, if◌then◌else◌,
}
use ai_inference_cost_optimi.Prelude.Result.{Result, ok, err}
use ai_inference_cost_optimi.Models.Errors.{ProviderError}
use ai_inference_cost_optimi.Models.Domain.{NormalizedUsage, ProviderChunk}
use ai_inference_cost_optimi.Config.Routing.{RoutingPolicy}
use ai_inference_cost_optimi.Adapters.{Adapters, Live}
use ai_inference_cost_optimi.Routing.Fallback.{
  Failure, provider_error, missing_provider, missing_adapter, unexpected, FallbackResult, chat,
}
use ai_inference_cost_optimi.Routing.Stream.{StreamRun, stream}
use ai_inference_cost_optimi.Api.Record.{ttft, attempt_history, result_metrics}
use ai_inference_cost_optimi.Api.Record.Attempts.{
  count, is_request, count-append, count-attempt_history, count-result_metrics,
  count-terminal_error,
}
use ai_inference_cost_optimi.Api.Response.{internal_error}
use ai_inference_cost_optimi.Api.Respond.{
  Routed, Handled, has_delta, usage_entries, handled_error, handled_success, respond, non_streamed,
  item_entries, items_entries, streaming, primed, streamed,
}

-- The request is counted once, or the handler raised and counted nothing.
abbrev pub CountedOnce : {W : Type 0} → Handled W → Type 0
CountedOnce h =
    (count is_request h.entries ≡ 1)
    ⊎ ((count is_request h.entries ≡ 0) × (h.response.body ≡ internal_error))

module _ {W : Type 0} (adapters : Adapters W) where
  count-handled_error :
      (q : Routed) (e : ProviderError) (s : Live W)
      → count is_request (handled_error adapters q e s).entries ≡ 1
  unfolding handled_error
  count-handled_error q e s = count-terminal_error e q.decision q.labels (s.now - q.started)

  count-handled_success :
      (q : Routed) (r : FallbackResult) (s : Live W)
      → count is_request (handled_success adapters q r s).entries ≡ 1
  unfolding handled_success
  count-handled_success q r s =
      let result = result_metrics adapters r.provider q.labels r.result.usage in
      omega (
        arith,
        count-append is_request (attempt_history r.attempts) _,
        count-attempt_history r.attempts,
        count-append is_request result _,
        count-result_metrics adapters r.provider q.labels r.result.usage,
      )

  respond-CountedOnce :
      (q : Routed) (outcome : Result Failure FallbackResult) (s : Live W)
      → CountedOnce (respond adapters q outcome s)
  unfolding respond
  respond-CountedOnce q (ok r) s = inl (count-handled_success q r s)
  respond-CountedOnce q (err (provider_error e)) s = inl (count-handled_error q e s)
  respond-CountedOnce q (err (missing_provider e)) s = inr (refl, refl)
  respond-CountedOnce q (err (missing_adapter name)) s = inr (refl, refl)
  respond-CountedOnce q (err unexpected) s = inr (refl, refl)

  -- A whole response is counted once.
  pub non_streamed-CountedOnce :
      (policy : RoutingPolicy) (q : Routed) (s : Live W)
      → CountedOnce (non_streamed adapters policy q s)
  unfolding non_streamed
  non_streamed-CountedOnce policy q s =
      respond-CountedOnce q (chat adapters policy q.canonical q.ctx q.decision s).0 _

  count-ttft :
      (shown : Bool) (provider workload : String)
      → count is_request (if shown then ttft provider workload ∷ [] else []) ≡ 0
  count-ttft true provider workload = refl
  count-ttft false provider workload = refl

  count-usage_entries :
      (q : Routed) (is_final : Bool) (provider : String) (u : Option NormalizedUsage)
      → count is_request
          (if is_final then usage_entries u (result_metrics adapters provider q.labels) else [])
        ≡ 0
  count-usage_entries q false provider u = refl
  count-usage_entries q true provider none = refl
  count-usage_entries q true provider (some u) = count-result_metrics adapters provider q.labels u

  count-item_entries :
      (q : Routed) (first : Bool) (provider : String) (c : ProviderChunk)
      → count is_request (item_entries adapters q first provider c) ≡ 0
  unfolding item_entries
  count-item_entries q first provider c = omega (
    arith,
    count-append is_request
        (if first && has_delta c then ttft provider q.labels.workload ∷ [] else []) _,
    count-ttft (first && has_delta c) provider q.labels.workload,
    count-usage_entries q c.is_final provider c.usage,
  )

  count-items_entries :
      (q : Routed) (first : Bool) (items : List (String × ℕ × ProviderChunk))
      → count is_request (items_entries adapters q first items) ≡ 0
  unfolding items_entries
  count-items_entries q first [] = refl
  count-items_entries q first ((provider, index, c) ∷ items) = omega (
    arith,
    count-append is_request (item_entries adapters q first provider c) _,
    count-item_entries q first provider c,
    count-items_entries q (first && not (has_delta c)) items,
  )

  count-streaming :
      (q : Routed) (run : StreamRun W) (provider : String) (index : ℕ)
      → count is_request (streaming adapters q run provider index).entries ≡ 1
  unfolding streaming
  count-streaming q run provider index = omega (
    arith,
    count-append is_request (items_entries adapters q true run.items) _,
    count-items_entries q true run.items,
    count-append is_request (attempt_history run.log) _,
    count-attempt_history run.log,
  )

  primed-CountedOnce :
      (q : Routed) (run : StreamRun W) (items : List (String × ℕ × ProviderChunk))
      (outcome : Result Failure (Unit {0}))
      → CountedOnce (primed adapters q run items outcome)
  unfolding primed
  primed-CountedOnce q run ((provider, index, c) ∷ items) outcome =
      inl (count-streaming q run provider index)
  primed-CountedOnce q run [] (ok u) = inl (count-streaming q run q.decision.primary 0)
  primed-CountedOnce q run [] (err (provider_error e)) = inl (count-handled_error q e run.live)
  primed-CountedOnce q run [] (err (missing_provider e)) = inr (refl, refl)
  primed-CountedOnce q run [] (err (missing_adapter n)) = inr (refl, refl)
  primed-CountedOnce q run [] (err unexpected) = inr (refl, refl)

  -- A streamed response is counted once, when its body ends.
  pub streamed-CountedOnce :
      (pace : ProviderChunk → ℕ) (policy : RoutingPolicy) (q : Routed) (s : Live W)
      → CountedOnce (streamed adapters pace policy q s)
  unfolding streamed
  streamed-CountedOnce pace policy q s =
      primed-CountedOnce q (stream pace adapters policy q.canonical q.ctx q.decision s)
        (stream pace adapters policy q.canonical q.ctx q.decision s).items
        (stream pace adapters policy q.canonical q.ctx q.decision s).outcome
