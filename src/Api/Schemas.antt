-- ===== src/Api/Schemas.antt =====
-- api/schemas.py: the wire format, its translation, and the payloads of responses. The texts of
-- error messages are not modelled; their data is.
pub mod Translation
pub mod Examples
use Prim.Native.String.{◌++◌ as append}
use ai_inference_cost_optimi.Prelude.{
  ℕ, ◌+◌, String, Bool, true, false, not, ◌&&◌, ◌||◌, Option, none, some, List, [], ◌∷◌, ltb, leb,
  eqb, length, if◌then◌else◌, or_default,
}
use ai_inference_cost_optimi.Prelude.Equality.{◌==◌, string_eq}
use ai_inference_cost_optimi.Prelude.Text.{codes, is_lower, is_upper, is_digit}
use ai_inference_cost_optimi.Prelude.Result.{Result, ok, err, ◌>>=◌, ◌>>◌, raise_if, check_all}
use ai_inference_cost_optimi.Models.Enums.{
  DataClass, QualityTier, MessageRole, system, developer, user, model,
}
use ai_inference_cost_optimi.Models.Domain.{
  CanonicalContentPart, CanonicalMessage, CanonicalChatRequest, NormalizedUsage, ProviderResult,
}

pub record WireMessage : Type 0 where
  pub role : String
  pub content : String
  pub name : Option String

pub record ChatCompletionRequest : Type 0 where
  pub model : String
  pub messages : List WireMessage
  pub temperature : ℕ
  pub max_tokens : ℕ
  pub stream : Bool

-- A ValidationError, by its field, and RequestValidationFailed.
pub data RequestError : Type 0 where
  invalid_field : String → RequestError
  unsupported_role : String → RequestError

-- `^[A-Za-z0-9][A-Za-z0-9._-]{0,63}$`
is_alias_start : ℕ → Bool
is_alias_start c = is_lower c || is_upper c || is_digit c

is_alias_char : ℕ → Bool
is_alias_char c = is_alias_start c || eqb c b'.' || eqb c b'_' || eqb c b'-'

all_alias_chars : List ℕ → Bool
all_alias_chars [] = true
all_alias_chars (c ∷ cs) = is_alias_char c && all_alias_chars cs

is_alias : List ℕ → Bool
unfolding is_alias_start is_alias_char all_alias_chars
is_alias [] = false
is_alias (c ∷ cs) = is_alias_start c && all_alias_chars cs && leb (length cs) 63

message_fields : WireMessage → Result RequestError Unit
message_fields m = raise_if (ltb 200_000 (length (codes m.content))) (invalid_field "content")

-- `ChatCompletionRequest.model_validate`, on JSON of the right shape.
pub validate_request : ChatCompletionRequest → Result RequestError ChatCompletionRequest
validate_request r = do
  raise_if (not (is_alias (codes r.model))) (invalid_field "model")
  check_all message_fields r.messages
  raise_if (eqb (length r.messages) 0 || ltb 128 (length r.messages)) (invalid_field "messages")
  raise_if (ltb 2_000_000 r.temperature) (invalid_field "temperature")
  raise_if (eqb r.max_tokens 0 || ltb 8192 r.max_tokens) (invalid_field "max_tokens")
  ok r

-- `_WIRE_TO_ROLE.get`
pub wire_to_role : String → Option MessageRole
wire_to_role role =
    if role == "system"
    then some system
    else if role == "developer"
    then some developer
    else if role == "user"
    then some user
    else if role == "assistant"
    then some model
    else none

-- The loop of `to_canonical`.
pub to_messages : List WireMessage → Result RequestError (List CanonicalMessage)
to_messages [] = ok []
to_messages (m ∷ messages) = elim (wire_to_role m.role) [
  | none ↦ err (unsupported_role m.role)
  | some role ↦ do
    rest ← to_messages messages
    ok (
        record {
          role = role;
          content = record { type = "text"; text = some m.content } ∷ [];
          name = m.name;
        }
        ∷ rest)
]

unfoldable pub to_canonical :
    ChatCompletionRequest
    → String
    → DataClass
    → QualityTier
    → String
    → Result RequestError CanonicalChatRequest
unfolding to_messages wire_to_role
to_canonical wire workload data_class quality_tier request_id = do
  messages ← to_messages wire.messages
  ok (record {
    messages = messages;
    model = wire.model;
    temperature = wire.temperature;
    max_tokens = wire.max_tokens;
    stream = wire.stream;
    metadata = record {
      workload = workload;
      data_class = data_class;
      quality_tier = quality_tier;
      request_id = request_id;
    };
  })

pub record UsagePayload : Type 0 where
  pub prompt_tokens : ℕ
  pub completion_tokens : ℕ
  pub total_tokens : ℕ

-- `_usage_payload`, from the two billed counts.
unfoldable pub usage_payload : NormalizedUsage → Option UsagePayload
usage_payload u = elim u.billed_input_tokens [
  | none ↦ none
  | some input ↦ elim u.billed_output_tokens [
    | none ↦ none
    | some output ↦ some (record {
      prompt_tokens = input;
      completion_tokens = output;
      total_tokens = input + output;
    })
  ]
]

-- `"".join(part.text or "" for part in parts)`
unfoldable pub join_text : List CanonicalContentPart → String
join_text [] = ""
join_text (p ∷ parts) = append (or_default p.text "") (join_text parts)

-- `text or default`
abbrev pub filled : Option String → String → String
filled none d = d
filled (some s) d = if s == "" then d else s

pub record CompletionPayload : Type 0 where
  pub id : String
  pub created : ℕ
  pub model : String
  pub content : String
  pub finish_reason : String
  pub usage : Option UsagePayload

pub completion_response : String → ℕ → String → ProviderResult → CompletionPayload
unfolding join_text usage_payload
completion_response request_id created_at_epoch model_alias result = record {
  id = append "chatcmpl-" request_id;
  created = created_at_epoch;
  model = model_alias;
  content = join_text result.output;
  finish_reason = filled result.finish_reason "stop";
  usage = usage_payload result.usage;
}

pub record ChunkPayload : Type 0 where
  pub id : String
  pub created : ℕ
  pub model : String
  pub delta : Option String
  pub finish_reason : Option String
  pub usage : Option UsagePayload

-- `if delta_text: delta["content"] = delta_text`
abbrev pub nonempty_text : Option String → Option String
nonempty_text none = none
nonempty_text (some s) = if s == "" then none else some s

unfoldable pub completion_chunk :
    String → ℕ → String → Option String → Option String → Option NormalizedUsage → ChunkPayload
unfolding usage_payload
completion_chunk request_id created_at_epoch model_alias delta_text finish_reason usage = record {
  id = append "chatcmpl-" request_id;
  created = created_at_epoch;
  model = model_alias;
  delta = nonempty_text delta_text;
  finish_reason = finish_reason;
  usage = elim usage [ none ↦ none | some u ↦ usage_payload u ];
}
