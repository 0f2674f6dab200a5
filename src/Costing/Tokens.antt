-- ===== src/Costing/Tokens.antt =====
-- costing/engine.py: the token counts by which the two paths are priced per million.
pub mod Totals
mod Examples
use ai_inference_cost_optimi.Prelude.{ℕ, ◌+◌, String, Option, none, some, List, [], ◌∷◌, filter}
use ai_inference_cost_optimi.Benchmark.Records.{TokenUsageRecord, BenchmarkRecord}
use ai_inference_cost_optimi.Costing.Engine.{served_by}

-- The two counts of a record whose sum is its share, if both are there.
abbrev pub both : Option ℕ → Option ℕ → Option ℕ
both none b = none
both (some a) none = none
both (some a) (some b) = some (a + b)

-- The loop over the records of one path.
pub total_from : (TokenUsageRecord → Option ℕ) → ℕ → List BenchmarkRecord → Option ℕ
total_from share total [] = some total
total_from share total (r ∷ records) = elim (share r.usage) [
  | none ↦ none
  | some n ↦ total_from share (total + n) records
]

-- `if not selected: return None`, then the loop
pub total_of : (TokenUsageRecord → Option ℕ) → List BenchmarkRecord → Option ℕ
total_of share [] = none
total_of share (r ∷ records) = total_from share 0 (r ∷ records)

abbrev pub billed_share : TokenUsageRecord → Option ℕ
billed_share u = both u.billed_input_tokens u.billed_output_tokens

abbrev pub normalized_share : TokenUsageRecord → Option ℕ
normalized_share u = both u.input_tokens u.visible_output_tokens

pub managed_provider_billed_tokens : List BenchmarkRecord → Option ℕ
unfolding total_of total_from
managed_provider_billed_tokens records =
    total_of billed_share (filter (served_by "managed") records)

pub private_normalized_tokens : List BenchmarkRecord → Option ℕ
unfolding total_of total_from
private_normalized_tokens records = total_of normalized_share (filter (served_by "private") records)
