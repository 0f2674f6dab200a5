-- ===== src/Adapters/OpenaiCompat.antt =====
-- adapters/openai_compat.py: what the adapter for private servers makes of their answers. The HTTP
-- client and the JSON parser are parameters: a line of a stream stands here as what was read in it.
pub mod Usage
pub mod Lines
mod Examples
use ai_inference_cost_optimi.Prelude.{
  ℕ, suc, ◌-◌, String, Bool, true, false, not, ◌&&◌, ◌||◌, Option, none, some, List, [], ◌∷◌, leb,
  if◌then◌else◌,
}
use ai_inference_cost_optimi.Prelude.Equality.{◌==◌, string_eq}
use ai_inference_cost_optimi.Prelude.Result.{Result, ok, err}
use ai_inference_cost_optimi.Models.Enums.{
  timeout, malformed_response, unavailable, provider_reported,
}
use ai_inference_cost_optimi.Models.Errors.{
  NormalizedError, normalized_error, StatusError, normalize_http_error,
}
use ai_inference_cost_optimi.Models.Domain.{
  CanonicalContentPart, NormalizedUsage, ProviderChunk, unavailable_usage,
}
use ai_inference_cost_optimi.Api.Schemas.{filled}
use ai_inference_cost_optimi.Adapters.Anthropic.{text_part, newer}

-- A JSON value where a token count is due.
pub data Count : Type 0 where
  no_int : Count
  below_zero : Count
  tokens : ℕ → Count

-- The usage object of an answer: prompt, completion and reasoning tokens.
pub record UsageObject : Type 0 where
  pub prompt_tokens : Count
  pub completion_tokens : Count
  pub reasoning_tokens : Count

-- What leaves the adapter: a ProviderError, or an exception of another class.
pub data Raised : Type 0 where
  provider_error : NormalizedError → Raised
  unexpected_exception : Raised

-- `isinstance(reasoning, int) and 0 <= reasoning <= completion`
split_reasoning : ℕ → Count → Option ℕ
split_reasoning completion (tokens r) = if leb r completion then some r else none
split_reasoning completion _ = none

counted_usage : ℕ → ℕ → Option ℕ → NormalizedUsage
counted_usage prompt completion none = record unavailable_usage {
  billed_input_tokens = some prompt;
  billed_input_tokens_source = provider_reported;
  billed_output_tokens = some completion;
  billed_output_tokens_source = provider_reported;
  visible_output_tokens = some completion;
  visible_output_tokens_source = provider_reported;
}
counted_usage prompt completion (some reasoning) = record {
  billed_input_tokens = some prompt;
  billed_input_tokens_source = provider_reported;
  billed_output_tokens = some completion;
  billed_output_tokens_source = provider_reported;
  visible_output_tokens = some (completion - reasoning);
  visible_output_tokens_source = provider_reported;
  reasoning_or_special_tokens = some reasoning;
  reasoning_or_special_tokens_source = provider_reported;
}

-- `_usage_from_payload`; none is a value that is no object. A count below 0 fails the model's
-- validation.
pub usage_from_payload : Option UsageObject → Result Raised NormalizedUsage
usage_from_payload none = ok unavailable_usage
usage_from_payload (some u) = elim u.prompt_tokens [
  | no_int ↦ ok unavailable_usage
  | below_zero ↦ elim u.completion_tokens [
    | no_int ↦ ok unavailable_usage
    | below_zero ↦ err unexpected_exception
    | tokens completion ↦ err unexpected_exception
  ]
  | tokens prompt ↦ elim u.completion_tokens [
    | no_int ↦ ok unavailable_usage
    | below_zero ↦ err unexpected_exception
    | tokens completion ↦
        ok (counted_usage prompt completion (split_reasoning completion u.reasoning_tokens))
  ]
]

-- The first choice of an event: the text of its delta and its finish reason, if they are texts.
pub record Choice : Type 0 where
  pub text : Option String
  pub finish_reason : Option String

-- A line: no data, the end mark, data that is not JSON or no object, or an event with its usage (if
-- that is not null) and its first choice (if that is an object).
pub data Line : Type 0 where
  no_data : Line
  done_mark : Line
  invalid_json : Line
  no_object : Line
  event : Option (Option UsageObject) → Option Choice → Line

-- How the lines end, if no end mark comes: by the server, by a timeout, or by another HTTP error.
pub data LinesEnd : Type 0 where
  closed : LinesEnd
  client_timeout : LinesEnd
  client_error : LinesEnd

-- The variables of `stream`.
pub record LinesState : Type 0 where
  pub sequence : ℕ
  pub usage : NormalizedUsage
  pub finish_reason : Option String

pub record Sent : Type 0 where
  pub chunks : List ProviderChunk
  pub raised : Option Raised

abbrev fails : Raised → Sent
fails e = record { chunks = []; raised = some e }

abbrev malformed : Sent
malformed =
    fails (provider_error (normalized_error malformed_response "sent an invalid event" none none))

-- `_raise_for_status`: nothing below 400; a status that no HTTP error has is a ValueError.
pub raise_for_status : ℕ → Option ℕ → Option Raised
raise_for_status status retry_after =
    if not (leb 400 status)
    then none
    else elim (normalize_http_error status "returned HTTP" retry_after) [
      | ok e ↦ some (provider_error e)
      | err e ↦ some unexpected_exception
    ]

-- `if event.get("usage") is not None: usage = _usage_from_payload(event["usage"])`
next_usage : Option (Option UsageObject) → NormalizedUsage → Result Raised NormalizedUsage
next_usage none usage = ok usage
next_usage (some payload) usage = usage_from_payload payload

module _ (name model_name : String) where
  line_chunk : ℕ → String → ProviderChunk
  line_chunk sequence text = record {
    provider = name;
    model = model_name;
    sequence = sequence;
    delta = text_part text;
    is_final = false;
    finish_reason = none;
    usage = none;
  }

  last_chunk : LinesState → ProviderChunk
  last_chunk s = record {
    provider = name;
    model = model_name;
    sequence = s.sequence;
    delta = [];
    is_final = true;
    finish_reason = some (filled s.finish_reason "stop");
    usage = some s.usage;
  }

  complete : LinesState → Sent
  complete s = record { chunks = last_chunk s ∷ []; raised = none }

  -- What the first choice adds: `rest` is the loop over the lines that follow.
  take_choice : Option Choice → LinesState → (LinesState → Sent) → Sent
  take_choice none s rest = rest s
  take_choice (some choice) s rest =
      let s' : LinesState = record s {
        finish_reason = newer choice.finish_reason s.finish_reason;
      } in
      let text = filled choice.text "" in
      let later = rest (record s' { sequence = suc s'.sequence }) in
      if text == ""
      then rest s'
      else record later { chunks = line_chunk s'.sequence text ∷ later.chunks }

  -- The loop over the lines, and what follows it.
  pub lines_from : LinesState → List Line → LinesEnd → Sent
  lines_from s [] closed = complete s
  lines_from s [] client_timeout =
      fails (provider_error (normalized_error timeout "stream timed out" none none))
  lines_from s [] client_error =
      fails (provider_error (normalized_error timeout "stream connection failed" none none))
  lines_from s (no_data ∷ lines) end = lines_from s lines end
  lines_from s (done_mark ∷ lines) end = complete s
  lines_from s (invalid_json ∷ lines) end = malformed
  lines_from s (no_object ∷ lines) end = malformed
  lines_from s (event payload choice ∷ lines) end = elim (next_usage payload s.usage) [
    | err e ↦ fails e
    | ok usage ↦ take_choice choice (record s { usage = usage }) (λ s'. lines_from s' lines end)
  ]

  -- `OpenAICompatAdapter.stream`: the status of the response, and its lines.
  pub compat_stream : ℕ → Option ℕ → List Line → LinesEnd → Sent
  compat_stream status retry_after lines end = elim (raise_for_status status retry_after) [
    | some e ↦ fails e
    | none ↦
        lines_from (record { sequence = 0; usage = unavailable_usage; finish_reason = none }) lines
          end
  ]
