-- ===== src/Api/Respond.antt =====
-- api/routes.py: the response of a routed request, whole or streamed, and what is recorded of it.
-- A handler gives the entries that it adds to the registry. A stream's chunks are sent as they come;
-- its client is taken to read to the end.
pub mod Accounting
pub mod Privacy
use ai_inference_cost_optimi.Prelude.{
  ℕ, ◌+◌, ◌-◌, ◌/◌, String, Bool, true, false, not, ◌&&◌, Option, none, some, List, [], ◌∷◌, ◌++◌,
  length, if◌then◌else◌,
}
use ai_inference_cost_optimi.Prelude.Equality.{◌==◌, string_eq}
use ai_inference_cost_optimi.Prelude.Result.{Result, ok, err}
use ai_inference_cost_optimi.Models.Enums.{
  ErrorClass, invalid_request, auth, rate_limited, timeout, provider_5xx, policy_denied,
  stream_started_failure, malformed_response, error_value,
}
use ai_inference_cost_optimi.Models.Errors.{AttemptOutcome, ProviderError}
use ai_inference_cost_optimi.Models.Domain.{
  CanonicalContentPart, CanonicalChatRequest, NormalizedUsage, ProviderChunk, RequestContext,
}
use ai_inference_cost_optimi.Config.Routing.{RoutingPolicy}
use ai_inference_cost_optimi.Adapters.{Adapters, Live}
use ai_inference_cost_optimi.Routing.Policy.{RouteDecision}
use ai_inference_cost_optimi.Routing.Fallback.{
  Failure, provider_error, missing_provider, missing_adapter, unexpected, FallbackResult, chat,
}
use ai_inference_cost_optimi.Routing.Stream.{StreamRun, stream}
use ai_inference_cost_optimi.Api.Schemas.{
  CompletionPayload, ChunkPayload, completion_response, completion_chunk, join_text, filled,
}
use ai_inference_cost_optimi.Api.Response.{
  Body, Event, Headers, Response, chunk_event, completion, crash, done_event, error_event,
  error_status, events, failure, internal_error, no_headers, provider_error_response, refusal,
  whole_seconds,
}
use ai_inference_cost_optimi.Api.Record.{
  Labels, Entry, requests_total, request_latency, ttft, access, attempt_history, result_metrics,
  last_provider, terminal_error,
}

-- What the two handlers take from `chat_completions`.
pub record Routed : Type 0 where
  pub canonical : CanonicalChatRequest
  pub ctx : RequestContext
  pub decision : RouteDecision
  pub model_alias : String
  pub labels : Labels
  pub request_id : String
  pub created_epoch : ℕ
  pub started : ℕ

pub record Handled (W : Type 0) : Type 0 where
  pub response : Response
  pub entries : List Entry
  pub live : Live W

-- `chunk.delta`, as a test
abbrev pub has_delta : ProviderChunk → Bool
has_delta c = elim c.delta [ [] ↦ false | part ∷ parts ↦ true ]

abbrev pub usage_entries : Option NormalizedUsage → (NormalizedUsage → List Entry) → List Entry
usage_entries none entries = []
usage_entries (some u) entries = entries u

-- The events of one item: the final chunk always, another one if it has a text.
unfoldable pub item_events : Routed → ProviderChunk → List Event
item_events q c =
    let text = join_text c.delta in
    if c.is_final
    then chunk_event (
        completion_chunk q.request_id q.created_epoch q.model_alias (some text)
          (some (filled c.finish_reason "stop")) c.usage)
      ∷ []
    else if text == ""
    then []
    else chunk_event
        (completion_chunk q.request_id q.created_epoch q.model_alias (some text) none none)
      ∷ []

unfoldable pub items_events : Routed → List (String × ℕ × ProviderChunk) → List Event
items_events q [] = []
items_events q ((provider, index, c) ∷ items) = item_events q c ++ items_events q items

-- How the body of the stream ends, and the outcome that is recorded of it. Only a ProviderError
-- changes that outcome.
unfoldable pub final_events : Result Failure (Unit {0}) → List Event
final_events (ok u) = done_event ∷ []
final_events (err (provider_error e)) =
    error_event e.error.message (error_value e.error.error_class) ∷ []
final_events (err _) = []

pub stream_outcome : Result Failure (Unit {0}) → String
stream_outcome (err (provider_error e)) = error_value e.error.error_class
stream_outcome _ = "success"

-- `provider_used or (attempt_log[-1].provider if attempt_log else decision.primary)`
pub final_provider : List (String × ℕ × ProviderChunk) → List AttemptOutcome → String → String
final_provider [] log primary = last_provider log primary
final_provider ((provider, index, c) ∷ []) log primary = provider
final_provider (item ∷ next ∷ items) log primary = final_provider (next ∷ items) log primary

module _ {W : Type 0} (adapters : Adapters W) where
  -- A ProviderError of the executor, as a response.
  pub handled_error : Routed → ProviderError → Live W → Handled W
  handled_error q e s =
      let provider = last_provider e.attempts q.decision.primary in
      record {
        response = provider_error_response e provider q.decision.rule_name;
        entries = terminal_error e q.decision q.labels (s.now - q.started);
        live = s;
      }

  pub handled_success : Routed → FallbackResult → Live W → Handled W
  handled_success q r s = record {
    response = record {
      status = 200;
      headers = record {
        provider = some r.provider;
        route = some q.decision.rule_name;
        fallback_count = some r.fallback_count;
        retry_after = none;
      };
      body = completion (completion_response q.request_id q.created_epoch q.model_alias r.result);
    };
    entries =
        attempt_history r.attempts
        ++ (request_latency r.provider q.labels.workload (s.now - q.started)
            ∷ requests_total r.provider q.labels "success"
            ∷ (result_metrics adapters r.provider q.labels r.result.usage
                ++ access "success" (some r.provider) (some q.decision.rule_name)
                    (s.now - q.started) r.fallback_count
                  ∷ []));
    live = s;
  }

  -- An exception that the handler does not catch: nothing is recorded.
  abbrev pub crashed_at : Live W → Handled W
  crashed_at s = record { response = crash; entries = []; live = s }

  -- What the executor's outcome becomes.
  pub respond : Routed → Result Failure FallbackResult → Live W → Handled W
  respond q (ok r) s = handled_success q r s
  respond q (err (provider_error e)) s = handled_error q e s
  respond q (err _) s = crashed_at s

  -- `_non_streamed`
  pub non_streamed : RoutingPolicy → Routed → Live W → Handled W
  non_streamed policy q s =
      let (outcome, s') = chat adapters policy q.canonical q.ctx q.decision s in
      respond q outcome s'

  -- The metrics of one item: the first content, and the usage of a final chunk.
  pub item_entries : Routed → Bool → String → ProviderChunk → List Entry
  item_entries q first_content provider c =
      (if first_content && has_delta c then ttft provider q.labels.workload ∷ [] else [])
      ++ (if c.is_final
          then usage_entries c.usage (result_metrics adapters provider q.labels)
          else [])

  pub items_entries : Routed → Bool → List (String × ℕ × ProviderChunk) → List Entry
  items_entries q first_content [] = []
  items_entries q first_content ((provider, index, c) ∷ items) =
      item_entries q first_content provider c
      ++ items_entries q (first_content && not (has_delta c)) items

  -- The streaming response, once its first item is there or the stream is known to be empty.
  pub streaming : Routed → StreamRun W → String → ℕ → Handled W
  streaming q run first_provider first_index =
      let used = final_provider run.items run.log q.decision.primary in
      let seconds = run.live.now - q.started in
      record {
        response = record {
          status = 200;
          headers = record {
            provider = some first_provider;
            route = some q.decision.rule_name;
            fallback_count = some first_index;
            retry_after = none;
          };
          body = events (items_events q run.items ++ final_events run.outcome);
        };
        entries =
            items_entries q true run.items
            ++ (attempt_history run.log
                ++ request_latency used q.labels.workload seconds
                  ∷ requests_total used q.labels (stream_outcome run.outcome)
                  ∷ access (stream_outcome run.outcome) (some used) (some q.decision.rule_name)
                      seconds 0
                  ∷ []);
        live = run.live;
      }

  -- What the first step of the generator brings.
  pub primed :
      Routed
      → StreamRun W
      → List (String × ℕ × ProviderChunk)
      → Result Failure (Unit {0})
      → Handled W
  primed q run ((provider, index, c) ∷ items) outcome = streaming q run provider index
  primed q run [] (ok u) = streaming q run q.decision.primary 0
  primed q run [] (err (provider_error e)) = handled_error q e run.live
  primed q run [] (err _) = crashed_at run.live

  -- `_streamed`
  pub streamed : (ProviderChunk → ℕ) → RoutingPolicy → Routed → Live W → Handled W
  streamed pace policy q s =
      let run = stream pace adapters policy q.canonical q.ctx q.decision s in
      primed q run run.items run.outcome
