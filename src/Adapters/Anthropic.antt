-- ===== src/Adapters/Anthropic.antt =====
-- adapters/anthropic_managed.py: what the managed adapter makes of the client library's messages and
-- exceptions. The library and the network behind it are parameters: the events that a stream brings
-- and how it ends, or the exception of a call.
pub mod Events
pub mod Errors
mod Examples
use ai_inference_cost_optimi.Prelude.{
  ℕ, suc, min, String, Bool, true, false, not, ◌&&◌, ◌||◌, Option, none, some, List, [], ◌∷◌, ltb,
  leb, if◌then◌else◌,
}
use ai_inference_cost_optimi.Prelude.Equality.{◌==◌, string_eq}
use ai_inference_cost_optimi.Prelude.Result.{Result, ok, err}
use ai_inference_cost_optimi.Models.Enums.{
  timeout, provider_5xx, malformed_response, unavailable, provider_reported, UsageSource,
  MessageRole, system, developer, user, model, tool,
}
use ai_inference_cost_optimi.Models.Errors.{
  NormalizedError, normalized_error, StatusError, normalize_http_error,
}
use ai_inference_cost_optimi.Models.Domain.{
  CanonicalContentPart, CanonicalMessage, NormalizedUsage, ProviderChunk,
}
use ai_inference_cost_optimi.Api.Schemas.{join_text}

-- The messages of a request for the client library: a role and a text.
pub record ApiMessage : Type 0 where
  pub role : String
  pub content : String

abbrev is_instruction : MessageRole → Bool
is_instruction system = true
is_instruction developer = true
is_instruction _ = false

abbrev api_role : MessageRole → String
api_role model = "assistant"
api_role _ = "user"

-- The two lists of `_split_messages`: the texts of the system prompt, and the messages.
pub split_messages : List CanonicalMessage → List String × List ApiMessage
split_messages [] = ([], [])
split_messages (m ∷ messages) =
    let (system_texts, wire) = split_messages messages in
    let text = join_text m.content in
    if is_instruction m.role
    then (text ∷ system_texts, wire)
    else (system_texts, record { role = api_role m.role; content = text } ∷ wire)

-- `_usage`: a count that the provider reported has this source.
abbrev source_of : Option ℕ → UsageSource
source_of none = unavailable
source_of (some n) = provider_reported

pub usage_of_counts : Option ℕ → Option ℕ → NormalizedUsage
usage_of_counts input_tokens output_tokens = record {
  visible_output_tokens = none;
  visible_output_tokens_source = unavailable;
  billed_input_tokens = input_tokens;
  billed_input_tokens_source = source_of input_tokens;
  billed_output_tokens = output_tokens;
  billed_output_tokens_source = source_of output_tokens;
  reasoning_or_special_tokens = none;
  reasoning_or_special_tokens_source = unavailable;
}

-- `_finish_reason` and its table
pub finish_reason_of : Option String → String
finish_reason_of none = "stop"
finish_reason_of (some r) =
    if r == "max_tokens"
    then "length"
    else if r == "tool_use"
    then "tool_calls"
    else if r == "refusal"
    then "content_filter"
    else "stop"

-- The exceptions of the client library, by the first class that `_normalize_error` tests for. A status
-- has the retry-after header, as far as it is a number and not below 0.
pub data ClientError : Type 0 where
  api_timeout : ClientError
  api_connection : ClientError
  api_status : ℕ → Option ℕ → ClientError
  api_response_validation : ClientError
  anthropic_error : ClientError
  other_exception : ClientError

-- `_normalize_error`; the ValueError of `normalize_http_error` would leave it.
pub normalize_error : ClientError → Result StatusError NormalizedError
normalize_error api_timeout = ok (normalized_error timeout "request timed out" none none)
normalize_error api_connection = ok (normalized_error timeout "connection failed" none none)
normalize_error (api_status status retry_after) =
    if leb 400 status && ltb status 600
    then normalize_http_error status "returned HTTP" retry_after
    else ok (normalized_error provider_5xx "reported an in-band error" none retry_after)
normalize_error api_response_validation =
    ok (normalized_error malformed_response "sent an invalid payload" none none)
normalize_error anthropic_error =
    ok (normalized_error provider_5xx "client reported a failure" none none)
normalize_error other_exception =
    ok (normalized_error malformed_response "client failure" none none)

-- The events of a stream: its start with the input tokens, a piece of text, the output tokens and the
-- stop reason as far as an event has them, or another event.
pub data StreamEvent : Type 0 where
  message_start : ℕ → StreamEvent
  text_delta : String → StreamEvent
  message_delta : Option ℕ → Option String → StreamEvent
  other_event : StreamEvent

pub data StreamEnd : Type 0 where
  exhausted : StreamEnd
  failed_with : ClientError → StreamEnd

-- The four variables of `stream`.
pub record StreamState : Type 0 where
  pub sequence : ℕ
  pub input_tokens : Option ℕ
  pub output_tokens : Option ℕ
  pub finish_reason : Option String

pub record Emitted : Type 0 where
  pub chunks : List ProviderChunk
  pub error : Option (Result StatusError NormalizedError)

-- `if new is not None: old = new`
abbrev pub newer : {A : Type 0} → Option A → Option A → Option A
newer none old = old
newer (some a) old = some a

abbrev pub text_part : String → List CanonicalContentPart
text_part text = record { type = "text"; text = some text } ∷ []

module _ (name model_name : String) where
  text_chunk : ℕ → String → ProviderChunk
  text_chunk sequence text = record {
    provider = name;
    model = model_name;
    sequence = sequence;
    delta = text_part text;
    is_final = false;
    finish_reason = none;
    usage = none;
  }

  final_chunk : StreamState → ProviderChunk
  final_chunk s = record {
    provider = name;
    model = model_name;
    sequence = s.sequence;
    delta = [];
    is_final = true;
    finish_reason = some (finish_reason_of s.finish_reason);
    usage = some (usage_of_counts s.input_tokens s.output_tokens);
  }

  -- The loop over the events, and what follows it.
  pub events_from : StreamState → List StreamEvent → StreamEnd → Emitted
  events_from s [] exhausted = record { chunks = final_chunk s ∷ []; error = none }
  events_from s [] (failed_with e) = record { chunks = []; error = some (normalize_error e) }
  events_from s (message_start n ∷ events) end =
      events_from (record s { input_tokens = some n }) events end
  events_from s (text_delta text ∷ events) end =
      let silent = events_from s events end in
      let rest = events_from (record s { sequence = suc s.sequence }) events end in
      if text == ""
      then silent
      else record rest { chunks = text_chunk s.sequence text ∷ rest.chunks }
  events_from s (message_delta tokens reason ∷ events) end =
      events_from
        (record s {
          output_tokens = newer tokens s.output_tokens;
          finish_reason = newer reason s.finish_reason;
        })
        events end
  events_from s (other_event ∷ events) end = events_from s events end

  abbrev pub stream_start : StreamState
  stream_start = record {
    sequence = 0;
    input_tokens = none;
    output_tokens = none;
    finish_reason = none;
  }

  -- `AnthropicManagedAdapter.stream`
  pub managed_stream : List StreamEvent → StreamEnd → Emitted
  managed_stream events end = events_from stream_start events end
