-- ===== src/Benchmark/Harness/Lines.antt =====
-- benchmark/harness.py and api/routes.py: the lines of a streamed body, and what its items hold.
-- A line that the gateway writes by `json.dumps` is read by `json.loads` as the same value.
use Prim.Native.String.{◌++◌ as append}
use ai_inference_cost_optimi.Prelude.{
  ℕ, String, Bool, false, ◌||◌, not, Option, none, some, List, [], ◌∷◌, if◌then◌else◌,
}
use ai_inference_cost_optimi.Prelude.Equality.{◌==◌, string_eq}
use ai_inference_cost_optimi.Prelude.Dict.{Dict}
use ai_inference_cost_optimi.Prelude.Result.{Result, ok, err}
use ai_inference_cost_optimi.Models.Enums.{error_value}
use ai_inference_cost_optimi.Models.Domain.{ProviderChunk}
use ai_inference_cost_optimi.Routing.Fallback.{Failure, provider_error}
use ai_inference_cost_optimi.Api.Schemas.{UsagePayload, usage_payload, join_text, filled}
use ai_inference_cost_optimi.Api.Response.{Event, chunk_event, error_event, done_event}
use ai_inference_cost_optimi.Benchmark.Harness.{
  StreamLine, other_line, end_mark, error_line, event_line,
}

-- The JSON object of a usage payload.
abbrev pub usage_object : UsagePayload → Dict ℕ
usage_object u =
    ("prompt_tokens", u.prompt_tokens)
    ∷ ("completion_tokens", u.completion_tokens)
    ∷ ("total_tokens", u.total_tokens)
    ∷ []

abbrev pub object_of : Option UsagePayload → Option (Dict ℕ)
object_of none = none
object_of (some u) = some (usage_object u)

abbrev pub content_of : Option String → String
content_of none = ""
content_of (some text) = text

-- The line of an event.
abbrev pub line_of : Event → StreamLine
line_of (chunk_event c) =
    event_line (some (record { content = content_of c.delta; finish_reason = c.finish_reason }))
      (object_of c.usage)
line_of (error_event message code) = error_line (some code)
line_of done_event = end_mark

-- The lines of a body: an empty line ends each event.
unfoldable pub sent_lines : List Event → List StreamLine
sent_lines [] = []
sent_lines (e ∷ es) = line_of e ∷ other_line ∷ sent_lines es

abbrev pub Item : Type 0
Item = String × ℕ × ProviderChunk

-- The text of all chunks.
unfoldable pub sent_text : List Item → String
sent_text [] = ""
sent_text ((provider, index, c) ∷ items) = append (join_text c.delta) (sent_text items)

-- The usage and the finish reason of the last final chunk that has one.
abbrev pub newer_usage : Option UsagePayload → Dict ℕ → Dict ℕ
newer_usage none usage = usage
newer_usage (some payload) usage = usage_object payload

abbrev pub chunk_usage : ProviderChunk → Dict ℕ → Dict ℕ
chunk_usage c usage = newer_usage (elim c.usage [ none ↦ none | some u ↦ usage_payload u ]) usage

unfoldable pub sent_usage : Dict ℕ → List Item → Dict ℕ
sent_usage usage [] = usage
sent_usage usage ((provider, index, c) ∷ items) =
    sent_usage (if c.is_final then chunk_usage c usage else usage) items

unfoldable pub sent_finish : Option String → List Item → Option String
sent_finish finish [] = finish
sent_finish finish ((provider, index, c) ∷ items) =
    sent_finish (if c.is_final then some (filled c.finish_reason "stop") else finish) items

-- Some chunk has a text.
unfoldable pub has_text : List Item → Bool
has_text [] = false
has_text ((provider, index, c) ∷ items) = not (join_text c.delta == "") || has_text items

-- A stream that the gateway ends itself, and the code that it ends with.
abbrev pub Closed : Result Failure (Unit {0}) → Type 0
Closed (ok u) = Unit
Closed (err (provider_error e)) = Unit
Closed (err _) = ⊥

abbrev pub closing_code : Result Failure (Unit {0}) → Option String
closing_code (ok u) = none
closing_code (err (provider_error e)) = some (error_value e.error.error_class)
closing_code (err _) = none
