-- ===== src/Models/Domain/Usage.antt =====
-- models/domain.py: what the validators of token usage accept.
use ai_inference_cost_optimi.Prelude.{ℕ, ◌≡◌, ◌↔◌, Option, none, arith}
use ai_inference_cost_optimi.Prelude.Result.{ok}
use ai_inference_cost_optimi.Models.Enums.{UsageSource, unavailable}
use ai_inference_cost_optimi.Models.Domain.{NormalizedUsage, validate_sources}

-- A count is there exactly when its source says where it comes from.
abbrev pub Sourced : Option ℕ → UsageSource → Type 0
Sourced value source = (value ≡ none) ↔ (source ≡ unavailable)

pub record IsSourced (u : NormalizedUsage) : Type 0 where
  pub visible : Sourced u.visible_output_tokens u.visible_output_tokens_source
  pub input : Sourced u.billed_input_tokens u.billed_input_tokens_source
  pub output : Sourced u.billed_output_tokens u.billed_output_tokens_source
  pub special : Sourced u.reasoning_or_special_tokens u.reasoning_or_special_tokens_source

-- A usage passes its validator exactly when each of its four counts is missing just where its source
-- is `unavailable`.
pub validate_sources_iff : (u : NormalizedUsage) → (validate_sources u ≡ ok u) ↔ IsSourced u
unfolding validate_sources
validate_sources_iff u = ground arith
