-- ===== src/Costing/Tokens/Totals.antt =====
-- costing/engine.py: a token total is exact, or is missing because a count is.
use ai_inference_cost_optimi.Prelude.{
  ℕ, ◌+◌, ◌≡◌, ◌≢◌, refl, subst, ◌⊎◌, inl, inr, Option, none, some, List, [], ◌∷◌, arith, filter,
  Exists, Option-cases,
}
use ai_inference_cost_optimi.Benchmark.Records.{TokenUsageRecord, BenchmarkRecord}
use ai_inference_cost_optimi.Costing.Engine.{served_by}
use ai_inference_cost_optimi.Costing.Tokens.{
  total_from, total_of, billed_share, normalized_share, managed_provider_billed_tokens,
  private_normalized_tokens,
}

-- Every record has its share, and they add up to `n`.
abbrev pub AddsUp : (TokenUsageRecord → Option ℕ) → List BenchmarkRecord → ℕ → Type 0
AddsUp share [] n = n ≡ 0
AddsUp share (r ∷ records) n =
    (k : ℕ) × (rest : ℕ) × (share r.usage ≡ some k) × (n ≡ k + rest) × AddsUp share records rest

-- What a total says of the records of its path.
abbrev pub IsTotal : (TokenUsageRecord → Option ℕ) → List BenchmarkRecord → Option ℕ → Type 0
IsTotal share records none = (records ≡ []) ⊎ Exists (λ r. share r.usage ≡ none) records
IsTotal share records (some n) = (records ≢ []) × AddsUp share records n

module _ (share : TokenUsageRecord → Option ℕ) where
  abbrev From : ℕ → List BenchmarkRecord → Option ℕ → Type 0
  From total records none = Exists (λ r. share r.usage ≡ none) records
  From total records (some n) = (m : ℕ) × (n ≡ total + m) × AddsUp share records m

  From-cons :
      (total k : ℕ) (r : BenchmarkRecord) (records : List BenchmarkRecord) (o : Option ℕ)
      → share r.usage ≡ some k
      → From (total + k) records o
      → From total (r ∷ records) o
  From-cons total k r records none e h = inr h
  From-cons total k r records (some n) e (m, sum, rest) =
      (k + m, omega arith, (k, m, e, refl, rest))

  total_from-From :
      (total : ℕ) (records : List BenchmarkRecord)
      → From total records (total_from share total records)
  unfolding total_from
  total_from-From total [] = (0, omega arith, refl)
  total_from-From total (r ∷ records) = elim (Option-cases (share r.usage)) [
    | inl e ↦ rw (e, total_from) (inl e)
    | inr (k, e) ↦
        rw (e, total_from) (From-cons total k r records _ e (total_from-From (total + k) records))
  ]

  From-IsTotal :
      (r : BenchmarkRecord) (records : List BenchmarkRecord) (o : Option ℕ)
      → From 0 (r ∷ records) o
      → IsTotal share (r ∷ records) o
  From-IsTotal r records none h = inr h
  From-IsTotal r records (some n) (m, sum, rest) =
      let same : m ≡ n = omega arith in (λ e. cc, subst (AddsUp share (r ∷ records)) same rest)

  total_of-IsTotal :
      (records : List BenchmarkRecord) → IsTotal share records (total_of share records)
  unfolding total_of
  total_of-IsTotal [] = inl refl
  total_of-IsTotal (r ∷ records) = From-IsTotal r records _ (total_from-From 0 (r ∷ records))

-- The billed tokens of the managed path and the normalized tokens of the private path are the exact
-- sums over its records; they are missing exactly if the path served nothing or a record lacks one
-- of its two counts.
pub path_tokens-IsTotal :
    (records : List BenchmarkRecord)
    → IsTotal billed_share
        (filter (served_by "managed") records)
        (managed_provider_billed_tokens records)
      × IsTotal normalized_share
          (filter (served_by "private") records)
          (private_normalized_tokens records)
unfolding managed_provider_billed_tokens private_normalized_tokens
path_tokens-IsTotal records = (
  total_of-IsTotal billed_share (filter (served_by "managed") records),
  total_of-IsTotal normalized_share (filter (served_by "private") records),
)
