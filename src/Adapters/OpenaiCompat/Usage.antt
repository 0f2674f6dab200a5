-- ===== src/Adapters/OpenaiCompat/Usage.antt =====
-- adapters/openai_compat.py: the usage that an answer's token counts give.
use ai_inference_cost_optimi.Prelude.{
  ℕ, ◌+◌, ◌≡◌, refl, inl, inr, some, arith, leb, Bool-cases, leb→le, or_default,
}
use ai_inference_cost_optimi.Prelude.Result.{Result, ok, err}
use ai_inference_cost_optimi.Models.Domain.{NormalizedUsage, validate_sources, unavailable_usage}
use ai_inference_cost_optimi.Adapters.OpenaiCompat.{
  Count, no_int, below_zero, tokens, UsageObject, Raised, unexpected_exception, split_reasoning,
  counted_usage, usage_from_payload,
}

-- The counts that a usage takes over: the billed ones as they are, and the visible and the reasoning
-- tokens, which make up the billed output.
pub record Splits (prompt completion : ℕ) (u : NormalizedUsage) : Type 0 where
  pub input : u.billed_input_tokens ≡ some prompt
  pub output : u.billed_output_tokens ≡ some completion
  pub whole_output :
      or_default u.visible_output_tokens 0 + or_default u.reasoning_or_special_tokens 0 ≡ completion
  pub valid : validate_sources u ≡ ok u

-- What the prompt and the completion tokens give.
abbrev pub Counted : Count → Count → Result Raised NormalizedUsage → Type 0
Counted (tokens p) (tokens c) r = (u : NormalizedUsage) × (r ≡ ok u) × Splits p c u
Counted no_int c r = r ≡ ok unavailable_usage
Counted below_zero no_int r = r ≡ ok unavailable_usage
Counted (tokens p) no_int r = r ≡ ok unavailable_usage
Counted below_zero _ r = r ≡ err unexpected_exception
Counted (tokens p) below_zero r = r ≡ err unexpected_exception

counted_usage-Splits : (p c : ℕ) (x : Count) → Splits p c (counted_usage p c (split_reasoning c x))
unfolding counted_usage split_reasoning validate_sources
counted_usage-Splits p c no_int = record {
  input = refl;
  output = refl;
  whole_output = omega arith;
  valid = refl;
}
counted_usage-Splits p c below_zero = record {
  input = refl;
  output = refl;
  whole_output = omega arith;
  valid = refl;
}
counted_usage-Splits p c (tokens x) = elim (Bool-cases (leb x c)) [
  | inl e ↦
      let bound = leb→le x c e in
      rw e
        (record { input = refl; output = refl; whole_output = omega (arith, bound); valid = refl })
  | inr e ↦ rw e (record { input = refl; output = refl; whole_output = omega arith; valid = refl })
]

-- Two counts give a valid usage, whose visible and reasoning tokens make up the billed output; a count
-- that is no integer gives the usage that says nothing; and otherwise a count below 0 raises an
-- exception that is no ProviderError.
pub usage_from_payload-Counted :
    (u : UsageObject) → Counted u.prompt_tokens u.completion_tokens (usage_from_payload (some u))
unfolding usage_from_payload
usage_from_payload-Counted u = go u.prompt_tokens u.completion_tokens
  where
    go :
        (p c : Count)
        → Counted p c (
            usage_from_payload (
              some (record {
                prompt_tokens = p;
                completion_tokens = c;
                reasoning_tokens = u.reasoning_tokens;
              })))
    go (tokens p) (tokens c) = (_, refl, counted_usage-Splits p c u.reasoning_tokens)
    go no_int c = refl
    go below_zero no_int = refl
    go (tokens p) no_int = refl
    go below_zero below_zero = refl
    go below_zero (tokens c) = refl
    go (tokens p) below_zero = refl
