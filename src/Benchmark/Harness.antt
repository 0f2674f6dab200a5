-- ===== src/Benchmark/Harness.antt =====
-- benchmark/harness.py: how the benchmark's client reads the gateway's answers, and the record that it
-- makes of a request. The HTTP client and the JSON parser are parameters: a line of a stream and the
-- body of an answer stand here as what was read in them.
pub mod Profile
pub mod Lines
pub mod Chunks
pub mod Stream
use ai_inference_cost_optimi.Prelude.{
  ℕ, suc, ◌+◌, ◌-◌, ◌%◌, String, Bool, true, false, ◌&&◌, Option, none, some, List, [], ◌∷◌, ltb,
  leb, eqb, if◌then◌else◌, length, or_default,
}
use Prim.Native.String.{◌++◌ as append}
use ai_inference_cost_optimi.Prelude.Equality.{◌==◌, string_eq}
use ai_inference_cost_optimi.Prelude.Dict.{Dict, get}
use ai_inference_cost_optimi.Models.Enums.{
  DataClass, QualityTier, ErrorClass, invalid_request, rate_limited, timeout, provider_5xx,
  malformed_response, provider_reported, unavailable, error_value, parse_error,
}
use ai_inference_cost_optimi.Api.Schemas.{filled}
use ai_inference_cost_optimi.Benchmark.Records.{TokenUsageRecord}
use ai_inference_cost_optimi.Benchmark.Scenario.{RequestProfile, BenchmarkScenario}

-- `ErrorClass(str(code))`; str(None) is no class.
abbrev pub class_of_code : Option String → Option ErrorClass
class_of_code none = none
class_of_code (some text) = parse_error text

-- `_error_class`, of the status and of the code that a payload with an error object has.
unfoldable pub error_class_of : ℕ → Option String → Option ErrorClass
error_class_of status code =
    if leb 200 status && ltb status 300 then none else elim (class_of_code code) [
      | some c ↦ some c
      | none ↦ some (
          if eqb status 429
          then rate_limited
          else if eqb status 504
          then timeout
          else if leb 500 status
          then provider_5xx
          else invalid_request)
    ]

-- The first choice of an event: the content of its delta ("" if it has none) and its finish reason.
pub record ChoiceSeen : Type 0 where
  pub content : String
  pub finish_reason : Option String

-- A line: without the prefix of data, the end mark, data that is not JSON, an error with its code, or
-- an event with its first choice and its usage. An error or a choice of another type than an object
-- raises, which is left out.
pub data StreamLine : Type 0 where
  other_line : StreamLine
  end_mark : StreamLine
  broken_line : StreamLine
  error_line : Option String → StreamLine
  event_line : Option ChoiceSeen → Option (Dict ℕ) → StreamLine

-- The variables of `_stream_text`.
pub record Reading : Type 0 where
  pub output : List String
  pub usage : Dict ℕ
  pub stream_error : Option String
  pub first_content_at : Option ℕ
  pub finish_reason : Option String

abbrev pub first_time : Option ℕ → ℕ → ℕ
first_time none now = now
first_time (some t) now = t

abbrev pub nonempty : Option String → Bool
nonempty none = false
nonempty (some s) = if s == "" then false else true

abbrev append_text : List String → String → List String
append_text [] text = text ∷ []
append_text (t ∷ ts) text = t ∷ append_text ts text

-- `if choices: ...`
take_content : ℕ → Option ChoiceSeen → Reading → Reading
take_content now none r = r
take_content now (some choice) r =
    let finish = if nonempty choice.finish_reason then choice.finish_reason else r.finish_reason in
    if choice.content == "" then record r { finish_reason = finish } else record r {
      output = append_text r.output choice.content;
      first_content_at = some (first_time r.first_content_at now);
      finish_reason = finish;
    }

-- One round of the loop, at a reading of the clock.
pub read_line : ℕ → StreamLine → Reading → Reading
unfolding take_content
read_line now other_line r = r
read_line now end_mark r = r
read_line now broken_line r = record r { stream_error = some (error_value malformed_response) }
read_line now (error_line code) r = record r {
  stream_error = some (or_default code (error_value malformed_response));
}
read_line now (event_line choice none) r = take_content now choice r
read_line now (event_line choice (some usage)) r = record (take_content now choice r) {
  usage = usage;
}

-- `clock i` is what the clock reads at line `i`.
pub read_lines : (ℕ → ℕ) → ℕ → Reading → List StreamLine → Reading
read_lines clock i r [] = r
read_lines clock i r (line ∷ lines) = read_lines clock (suc i) (read_line (clock i) line r) lines

abbrev pub nothing_read : Reading
nothing_read = record {
  output = [];
  usage = [];
  stream_error = none;
  first_content_at = none;
  finish_reason = none;
}

pub stream_text : (ℕ → ℕ) → List StreamLine → Reading
unfolding read_lines
stream_text clock lines = read_lines clock 0 nothing_read lines

-- `"".join(output)`
unfoldable pub joined : List String → String
joined [] = ""
joined (text ∷ texts) = append text (joined texts)

-- `_usage_record`
unfoldable pub usage_record : Dict ℕ → TokenUsageRecord
usage_record usage = record {
  input_tokens = get "prompt_tokens" usage;
  visible_output_tokens = get "completion_tokens" usage;
  billed_input_tokens = get "prompt_tokens" usage;
  billed_output_tokens = get "completion_tokens" usage;
  source = if eqb (length usage) 0 then unavailable else provider_reported;
}

-- The sum of the weights.
pub total_weight : List RequestProfile → ℕ
total_weight [] = 0
total_weight (p ∷ mix) = p.weight + total_weight mix

-- The loop of `_request_profile`; `none` is the AssertionError.
pub profile_from : ℕ → List RequestProfile → Option (DataClass × QualityTier)
profile_from slot [] = none
profile_from slot (p ∷ mix) =
    let rest = profile_from (slot - p.weight) mix in
    if ltb slot p.weight then some (p.data_class, p.quality_tier) else rest

unfoldable pub request_profile : BenchmarkScenario → ℕ → Option (DataClass × QualityTier)
unfolding profile_from total_weight
request_profile s request_index = elim s.request_mix [
  | [] ↦ some (s.data_class, s.quality_tier)
  | p ∷ mix ↦ profile_from (request_index % total_weight (p ∷ mix)) (p ∷ mix)
]
