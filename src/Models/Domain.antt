-- ===== src/Models/Domain.antt =====
-- models/domain.py: requests, results, stream chunks, token usage and money. A time is a number of
-- microseconds since the epoch (UTC), and a temperature a number of millionths. The free-form
-- `data` and `extensions` dictionaries, which no operation reads, are left out.
pub mod Usage
use ai_inference_cost_optimi.Prelude.{
  ℕ, String, Bool, true, false, not, ◌&&◌, Option, none, some, List, [], ◌∷◌, ltb, present,
}
use ai_inference_cost_optimi.Prelude.Result.{Result, ok, err, ◌>>=◌, ◌>>◌, raise_if}
use ai_inference_cost_optimi.Prelude.Equality.{◌==◌, string_eq}
use ai_inference_cost_optimi.Decimal.{Decimal, ◌+ᵈ◌, ◌*ᵈ◌}
use ai_inference_cost_optimi.Models.Enums.{
  DataClass, QualityTier, UsageSource, unavailable, MessageRole,
}

pub record CanonicalContentPart : Type 0 where
  pub type : String
  pub text : Option String

pub record CanonicalMessage : Type 0 where
  pub role : MessageRole
  pub content : List CanonicalContentPart
  pub name : Option String

pub record RequestMetadata : Type 0 where
  pub workload : String
  pub data_class : DataClass
  pub quality_tier : QualityTier
  pub request_id : String

pub record CanonicalChatRequest : Type 0 where
  pub messages : List CanonicalMessage
  pub model : String
  pub temperature : ℕ
  pub max_tokens : ℕ
  pub stream : Bool
  pub metadata : RequestMetadata

pub record NormalizedUsage : Type 0 where
  pub visible_output_tokens : Option ℕ
  pub visible_output_tokens_source : UsageSource
  pub billed_input_tokens : Option ℕ
  pub billed_input_tokens_source : UsageSource
  pub billed_output_tokens : Option ℕ
  pub billed_output_tokens_source : UsageSource
  pub reasoning_or_special_tokens : Option ℕ
  pub reasoning_or_special_tokens_source : UsageSource

-- The ValueErrors of the model validators.
pub data DomainError : Type 0 where
  needs_value : String → DomainError
  has_value_unavailable : String → DomainError
  usage_before_final : DomainError
  deadline_before_start : DomainError
  different_currencies : DomainError

abbrev is_unavailable : UsageSource → Bool
is_unavailable unavailable = true
is_unavailable _ = false

-- One round of the loop over the pairs of `validate_sources`.
check_source : Option ℕ → UsageSource → String → Result DomainError Unit
check_source value source name = do
  raise_if (not (present value) && not (is_unavailable source)) (needs_value name)
  raise_if (present value && is_unavailable source) (has_value_unavailable name)

unfoldable pub validate_sources : NormalizedUsage → Result DomainError NormalizedUsage
unfolding check_source
validate_sources u = do
  check_source u.visible_output_tokens u.visible_output_tokens_source "visible_output_tokens"
  check_source u.billed_input_tokens u.billed_input_tokens_source "billed_input_tokens"
  check_source u.billed_output_tokens u.billed_output_tokens_source "billed_output_tokens"
  check_source u.reasoning_or_special_tokens u.reasoning_or_special_tokens_source
      "reasoning_or_special_tokens"
  ok u

-- `NormalizedUsage.unavailable()`: every field has its default.
abbrev pub unavailable_usage : NormalizedUsage
unavailable_usage = record {
  visible_output_tokens = none;
  visible_output_tokens_source = unavailable;
  billed_input_tokens = none;
  billed_input_tokens_source = unavailable;
  billed_output_tokens = none;
  billed_output_tokens_source = unavailable;
  reasoning_or_special_tokens = none;
  reasoning_or_special_tokens_source = unavailable;
}

pub record ProviderResult : Type 0 where
  pub provider : String
  pub model : String
  pub output : List CanonicalContentPart
  pub finish_reason : Option String
  pub usage : NormalizedUsage

pub record ProviderChunk : Type 0 where
  pub provider : String
  pub model : String
  pub sequence : ℕ
  pub delta : List CanonicalContentPart
  pub is_final : Bool
  pub finish_reason : Option String
  pub usage : Option NormalizedUsage

pub usage_only_on_final_chunk : ProviderChunk → Result DomainError ProviderChunk
usage_only_on_final_chunk c = do
  raise_if (present c.usage && not c.is_final) usage_before_final
  ok c

pub record RequestContext : Type 0 where
  pub request_id : String
  pub started_at : ℕ
  pub deadline_at : ℕ

pub timestamps_are_ordered : RequestContext → Result DomainError RequestContext
timestamps_are_ordered c = do raise_if (ltb c.deadline_at c.started_at) deadline_before_start; ok c

pub record Money : Type 0 where
  pub amount : Decimal
  pub currency : String

-- `Money.__add__` and `Money.__mul__`
pub add_money : Money → Money → Result DomainError Money
add_money a b = do
  raise_if (not (a.currency == b.currency)) different_currencies
  ok (record { amount = a.amount +ᵈ b.amount; currency = a.currency })

pub mul_money : Money → Decimal → Money
mul_money m multiplier = record { amount = m.amount *ᵈ multiplier; currency = m.currency }
