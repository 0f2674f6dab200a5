-- ===== src/Adapters/Mock.antt =====
-- adapters/mock.py: the adapter whose answers follow a script. Delays and hints are not negative here,
-- and times are whole microseconds.
pub mod Contract
mod Examples
use ai_inference_cost_optimi.Prelude.{
  ℕ, ◌*◌, ◌&&◌, String, Bool, true, false, not, Option, none, some, List, [], ◌∷◌, eqb, present,
  if◌then◌else◌,
}
use ai_inference_cost_optimi.Prelude.Equality.{◌==◌, string_eq}
use ai_inference_cost_optimi.Prelude.Result.{Result, ok, err}
use ai_inference_cost_optimi.Decimal.{Decimal, whole, ◌+ᵈ◌, ◌*ᵈ◌, over}
use ai_inference_cost_optimi.Models.Enums.{
  malformed_response, stream_started_failure, provider_reported,
}
use ai_inference_cost_optimi.Models.Errors.{
  NormalizedError, normalized_error, StatusError, normalize_http_error,
}
use ai_inference_cost_optimi.Models.Domain.{
  CanonicalChatRequest, NormalizedUsage, unavailable_usage, ProviderResult, ProviderChunk, Money,
}
use ai_inference_cost_optimi.Config.Pricing.{million}
use ai_inference_cost_optimi.Adapters.{
  Answer, returned, raised, timed_out, crashed, Call, after, hangs, Feed, ends, yields, Adapters,
}
use ai_inference_cost_optimi.Adapters.Anthropic.{text_part}

pub data MockBehaviorKind : Type 0 where
  ok_kind rate_limited_429 server_500 timeout_kind malformed_kind : MockBehaviorKind
  delayed stream_ok stream_fail_after_first_chunk : MockBehaviorKind

pub record MockBehavior : Type 0 where
  pub kind : MockBehaviorKind
  pub delay_ms : ℕ
  pub retry_after_seconds : ℕ

pub data BehaviorError : Type 0 where
  delay_only_for_delayed : BehaviorError

abbrev is_delayed : MockBehaviorKind → Bool
is_delayed delayed = true
is_delayed _ = false

-- `MockBehavior.__post_init__`
pub post_init : MockBehavior → Result BehaviorError MockBehavior
post_init b =
    if not (is_delayed b.kind) && not (eqb b.delay_ms 0) then err delay_only_for_delayed else ok b

-- The adapter with what is left of its script.
pub record MockProviderAdapter : Type 0 where
  pub default_behavior : MockBehavior
  pub script : List MockBehavior
  pub include_usage : Bool
  pub timeout_seconds : ℕ
  pub input_price_per_1m : Decimal
  pub output_price_per_1m : Decimal

abbrev pub mock_name : String
mock_name = "managed-fault-mock"

-- `_next_behavior`
pub next_behavior : MockProviderAdapter → MockBehavior × MockProviderAdapter
next_behavior m = elim m.script [
  | [] ↦ (m.default_behavior, m)
  | b ∷ rest ↦ (b, record m { script = rest })
]

-- `raise ProviderError(normalize_http_error(...))`
raise_status : Result StatusError NormalizedError → Answer (Unit {0})
raise_status (ok error) = raised error
raise_status (err e) = crashed

abbrev milliseconds : ℕ → ℕ
milliseconds n = n * 1_000

-- `_before_response`: the time that it takes, and how it ends.
pub before_response : MockProviderAdapter → MockBehavior → ℕ × Answer (Unit {0})
unfolding raise_status normalize_http_error normalized_error
before_response m b = elim b.kind [
  | delayed ↦ (milliseconds b.delay_ms, returned tt)
  | timeout_kind ↦ (m.timeout_seconds, returned tt)
  | rate_limited_429 ↦ (
    0,
    raise_status (normalize_http_error 429 "mock provider rate limit" (some b.retry_after_seconds)),
  )
  | server_500 ↦ (0, raise_status (normalize_http_error 500 "mock provider server error" none))
  | malformed_kind ↦ (
    0,
    raised (
        normalized_error malformed_response "mock provider returned a malformed response" (some 502)
          none),
  )
  | ok_kind ↦ (0, returned tt)
  | stream_ok ↦ (0, returned tt)
  | stream_fail_after_first_chunk ↦ (0, returned tt)
]

abbrev pub fails_late : MockBehaviorKind → Bool
fails_late stream_fail_after_first_chunk = true
fails_late _ = false

-- `_usage`
pub mock_usage : MockProviderAdapter → NormalizedUsage
mock_usage m = if not m.include_usage then unavailable_usage else record {
  visible_output_tokens = some 2;
  visible_output_tokens_source = provider_reported;
  billed_input_tokens = some 4;
  billed_input_tokens_source = provider_reported;
  billed_output_tokens = some 2;
  billed_output_tokens_source = provider_reported;
  reasoning_or_special_tokens = some 0;
  reasoning_or_special_tokens_source = provider_reported;
}

-- The exceptions of `_before_response` leave `chat`; else what follows it.
pub chat_response :
    MockProviderAdapter
    → CanonicalChatRequest
    → MockBehavior
    → ℕ × Answer (Unit {0})
    → Call ProviderResult
unfolding mock_usage normalized_error
chat_response m request b (took, raised error) = after took (raised error)
chat_response m request b (took, timed_out) = after took timed_out
chat_response m request b (took, crashed) = after took crashed
chat_response m request b (took, returned u) =
    if fails_late b.kind
    then after took (
        raised (
          normalized_error malformed_response
            "stream-only mock behavior used for a non-streaming call" none none))
    else after took (
        returned (record {
          provider = mock_name;
          model = request.model;
          output = text_part "mock response";
          finish_reason = some "stop";
          usage = mock_usage m;
        }))

-- `chat`
pub mock_chat :
    CanonicalChatRequest → MockProviderAdapter → Call ProviderResult × MockProviderAdapter
unfolding next_behavior before_response chat_response
mock_chat request m =
    let (b, m') = next_behavior m in (chat_response m request b (before_response m b), m')

pub mock_chunk : CanonicalChatRequest → ℕ → String → ProviderChunk
mock_chunk request sequence text = record {
  provider = mock_name;
  model = request.model;
  sequence = sequence;
  delta = text_part text;
  is_final = false;
  finish_reason = none;
  usage = none;
}

-- What follows the first chunk.
pub after_first : MockProviderAdapter → CanonicalChatRequest → MockBehavior → Feed
unfolding mock_chunk mock_usage normalized_error
after_first m request b =
    if fails_late b.kind
    then ends (
        after 0 (
          raised (
            normalized_error stream_started_failure "mock provider failed after streaming began"
              none none)))
    else yields 0 (mock_chunk request 1 "response") (
        yields 0
          (record {
            provider = mock_name;
            model = request.model;
            sequence = 2;
            delta = [];
            is_final = true;
            finish_reason = some "stop";
            usage = some (mock_usage m);
          })
          (ends (after 0 (returned tt))))

pub stream_response :
    MockProviderAdapter → CanonicalChatRequest → MockBehavior → ℕ × Answer (Unit {0}) → Feed
unfolding mock_chunk after_first
stream_response m request b (took, raised error) = ends (after took (raised error))
stream_response m request b (took, timed_out) = ends (after took timed_out)
stream_response m request b (took, crashed) = ends (after took crashed)
stream_response m request b (took, returned u) =
    yields took (mock_chunk request 0 "mock ") (after_first m request b)

-- `stream`
pub mock_stream : CanonicalChatRequest → MockProviderAdapter → Feed × MockProviderAdapter
unfolding next_behavior before_response stream_response
mock_stream request m =
    let (b, m') = next_behavior m in (stream_response m request b (before_response m b), m')

-- `price`
pub mock_price : MockProviderAdapter → NormalizedUsage → Option Money
mock_price m usage = elim usage.billed_input_tokens [
  | none ↦ none
  | some input ↦ elim usage.billed_output_tokens [
    | none ↦ none
    | some output ↦ some (record {
      amount =
          over (whole input *ᵈ m.input_price_per_1m +ᵈ whole output *ᵈ m.output_price_per_1m)
            million;
      currency = "USD";
    })
  ]
]

-- The adapter under one name, priced as it was built.
pub mock_adapters : String → MockProviderAdapter → Adapters MockProviderAdapter
unfolding mock_chat mock_stream mock_price
mock_adapters name built = record {
  known = λ n. n == name;
  chat = λ n request ctx m. mock_chat request m;
  stream = λ n request ctx m. mock_stream request m;
  price = λ n usage model. mock_price built usage;
}
