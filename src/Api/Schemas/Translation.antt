-- ===== src/Api/Schemas/Translation.antt =====
-- api/schemas.py: the translation keeps the request, and refuses roles that it cannot express.
use text.Mathlib.TextEquality.{eq_iff}
use ai_inference_cost_optimi.Prelude.{
  String, ◌≡◌, ◌≢◌, refl, subst, ◌⊎◌, inl, inr, none, some, List, [], ◌∷◌, Option-cases, not, ◌||◌,
  eqb, ltb, length, arith,
}
use ai_inference_cost_optimi.Prelude.Result.{
  Result, ok, err, ◌>>=◌, OnOk, OnOk-then, at_ok, raise_if, check_all,
}
use ai_inference_cost_optimi.Prelude.Text.{codes}
use ai_inference_cost_optimi.Models.Enums.{
  DataClass, QualityTier, MessageRole, system, developer, user, model, tool,
}
use ai_inference_cost_optimi.Prelude.Equality.{string_eq}
use ai_inference_cost_optimi.Models.Domain.{CanonicalMessage, CanonicalChatRequest}
use ai_inference_cost_optimi.Api.Schemas.{
  WireMessage, ChatCompletionRequest, RequestError, invalid_field, unsupported_role, wire_to_role,
  is_alias, message_fields, to_messages, validate_request, to_canonical,
}

-- The roles of the wire format and their meaning.
abbrev pub HasRole : String → MessageRole → Type 0
HasRole role system = role ≡ "system"
HasRole role developer = role ≡ "developer"
HasRole role user = role ≡ "user"
HasRole role model = role ≡ "assistant"
HasRole role tool = ⊥

abbrev pub HasNoRole : String → Type 0
HasNoRole role = (role ≢ "system") × (role ≢ "developer") × (role ≢ "user") × (role ≢ "assistant")

-- One message in both forms.
pub record Same (m : WireMessage) (c : CanonicalMessage) : Type 0 where
  pub role : HasRole m.role c.role
  pub content : c.content ≡ record { type = "text"; text = some m.content } ∷ []
  pub name : c.name ≡ m.name

wire_to_role-none : (role : String) → wire_to_role role ≡ none → HasNoRole role
unfolding wire_to_role
wire_to_role-none role h = ground (
  arith,
  eq_iff role "system",
  eq_iff role "developer",
  eq_iff role "user",
  eq_iff role "assistant",
)

wire_to_role-some : (role : String) (r : MessageRole) → wire_to_role role ≡ some r → HasRole role r
unfolding wire_to_role
wire_to_role-some role system h = (eq_iff role "system").0 (ground arith)
wire_to_role-some role developer h = (eq_iff role "developer").0 (ground arith)
wire_to_role-some role user h = (eq_iff role "user").0 (ground arith)
wire_to_role-some role model h = (eq_iff role "assistant").0 (ground arith)
wire_to_role-some role tool h = ground (
  arith,
  eq_iff role "system",
  eq_iff role "developer",
  eq_iff role "user",
  eq_iff role "assistant",
)

-- The messages in both forms, one by one and in order.
abbrev pub AllSame : List WireMessage → List CanonicalMessage → Type 0
AllSame [] [] = Unit
AllSame (m ∷ ms) (c ∷ cs) = Same m c × AllSame ms cs
AllSame _ _ = ⊥

-- A message whose role the wire format does not have comes first in the list.
abbrev pub Unsupported : List WireMessage → String → Type 0
Unsupported [] role = ⊥
Unsupported (m ∷ ms) role =
    ((m.role ≡ role) × HasNoRole role)
    ⊎ (((r : MessageRole) × HasRole m.role r) × Unsupported ms role)

abbrev Translated : List WireMessage → Result RequestError (List CanonicalMessage) → Type 0
Translated ms (ok cs) = AllSame ms cs
Translated ms (err (unsupported_role role)) = Unsupported ms role
Translated ms (err (invalid_field name)) = ⊥

to_messages-Translated : (ms : List WireMessage) → Translated ms (to_messages ms)
unfolding to_messages
to_messages-Translated [] = tt
to_messages-Translated (m ∷ ms) = elim (Option-cases (wire_to_role m.role)) [
  | inl e ↦ rw (e, to_messages) (inl (refl, wire_to_role-none m.role e))
  | inr (role, e) ↦
      rw (e, to_messages) (grow m role ms e (to_messages ms) (to_messages-Translated ms))
]
  where
    grow :
        (m : WireMessage) (role : MessageRole) (ms : List WireMessage)
        → wire_to_role m.role ≡ some role
        → (r : Result RequestError (List CanonicalMessage)) → Translated ms r
        → Translated (m ∷ ms) (
            r >>= λ rest. ok (
              record {
                role = role;
                content = record { type = "text"; text = some m.content } ∷ [];
                name = m.name;
              }
              ∷ rest))
    grow m role ms e (ok cs) h =
        (record { role = wire_to_role-some m.role role e; content = refl; name = refl }, h)
    grow m role ms e (err (unsupported_role r)) h = inr ((role, wire_to_role-some m.role role e), h)
    grow m role ms e (err (invalid_field f)) h = h

-- What the canonical request keeps of the wire request and of its headers.
pub record Keeps (wire : ChatCompletionRequest) (w : String) (c : DataClass) (t : QualityTier)
    (id : String) (r : CanonicalChatRequest) : Type 0 where
  pub messages : AllSame wire.messages r.messages
  pub model : r.model ≡ wire.model
  pub temperature : r.temperature ≡ wire.temperature
  pub max_tokens : r.max_tokens ≡ wire.max_tokens
  pub stream : r.stream ≡ wire.stream
  pub workload : r.metadata.workload ≡ w
  pub data_class : r.metadata.data_class ≡ c
  pub quality_tier : r.metadata.quality_tier ≡ t
  pub request_id : r.metadata.request_id ≡ id

abbrev pub Translation :
    ChatCompletionRequest
    → String
    → DataClass
    → QualityTier
    → String
    → Result RequestError CanonicalChatRequest
    → Type 0
Translation wire w c t id (ok r) = Keeps wire w c t id r
Translation wire w c t id (err (unsupported_role role)) = Unsupported wire.messages role
Translation wire w c t id (err (invalid_field name)) = ⊥

-- A translated request has the messages of the wire request in their order, with their texts and
-- names, the roles system, developer, user and assistant each as their own, and every parameter and
-- header; the only refusal is of the first role that is none of these four.
pub to_canonical-Translation :
    (wire : ChatCompletionRequest) (w : String) (c : DataClass) (t : QualityTier) (id : String)
    → Translation wire w c t id (to_canonical wire w c t id)
unfolding to_canonical
to_canonical-Translation wire w c t id =
    go (to_messages wire.messages) (to_messages-Translated wire.messages)
  where
    go :
        (r : Result RequestError (List CanonicalMessage))
        → Translated wire.messages r
        → Translation wire w c t id (
            r >>= λ messages. ok (record {
              messages = messages;
              model = wire.model;
              temperature = wire.temperature;
              max_tokens = wire.max_tokens;
              stream = wire.stream;
              metadata = record { workload = w; data_class = c; quality_tier = t; request_id = id };
            }))
    go (ok cs) h = record {
      messages = h;
      model = refl;
      temperature = refl;
      max_tokens = refl;
      stream = refl;
      workload = refl;
      data_class = refl;
      quality_tier = refl;
      request_id = refl;
    }
    go (err (unsupported_role r)) h = h
    go (err (invalid_field f)) h = h

validate_request-same : (r : ChatCompletionRequest) → OnOk (λ v. v ≡ r) (validate_request r)
unfolding validate_request
validate_request-same r =
    let Q : ChatCompletionRequest → Type 0 = λ v. v ≡ r in
    OnOk-then Q (raise_if (not (is_alias (codes r.model))) (invalid_field "model")) _ (
      OnOk-then Q (check_all message_fields r.messages) _ (
        OnOk-then Q
          (raise_if (eqb (length r.messages) 0 || ltb 128 (length r.messages))
            (invalid_field "messages"))
          _
          (OnOk-then Q (raise_if (ltb 2_000_000 r.temperature) (invalid_field "temperature")) _ (
            OnOk-then Q
              (raise_if (eqb r.max_tokens 0 || ltb 8192 r.max_tokens) (invalid_field "max_tokens"))
              _ refl))))

-- Validation changes nothing.
pub validate_request_same :
    {v : ChatCompletionRequest} (r : ChatCompletionRequest) → validate_request r ≡ ok v → v ≡ r
validate_request_same r e = at_ok _ _ (validate_request-same r) e

-- A translated request keeps the wire request.
pub to_canonical-Keeps :
    {r : CanonicalChatRequest} (wire : ChatCompletionRequest) (w : String) (c : DataClass)
    (t : QualityTier) (id : String)
    → to_canonical wire w c t id ≡ ok r
    → Keeps wire w c t id r
to_canonical-Keeps wire w c t id e =
    subst (Translation wire w c t id) e (to_canonical-Translation wire w c t id)
