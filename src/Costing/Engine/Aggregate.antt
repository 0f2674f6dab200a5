-- ===== src/Costing/Engine/Aggregate.antt =====
-- costing/engine.py: `aggregate_managed` counts every managed record once, and adds up their costs.
use ai_inference_cost_optimi.Prelude.{
  ℕ, ◌+◌, ◌≡◌, refl, inl, inr, true, false, Option, none, some, List, [], ◌∷◌, arith, length,
  filter, Bool-cases, Option-cases, ltb,
}
use ai_inference_cost_optimi.Decimal.{Decimal, zero_decimal, ◌+ᵈ◌, sum_from}
use ai_inference_cost_optimi.Benchmark.Records.{BenchmarkRecord}
use ai_inference_cost_optimi.Costing.Engine.{
  ManagedCostAggregate, served_by, aggregate_from, aggregate_managed,
}

-- The costs of the managed records that have one, in their order.
abbrev pub cost_of : Option Decimal → List Decimal → List Decimal
cost_of none costs = costs
cost_of (some c) costs = c ∷ costs

abbrev pub managed_costs : List BenchmarkRecord → List Decimal
managed_costs [] = []
managed_costs (r ∷ records) =
    let rest = managed_costs records in
    elim (served_by "managed" r) [ false ↦ rest | true ↦ cost_of r.managed_inference_cost_usd rest ]

-- What the aggregate says of the records, from the state of the loop.
pub record IsAggregate (total : Decimal) (priced missing : ℕ) (records : List BenchmarkRecord)
    (a : ManagedCostAggregate) : Type 0 where
  pub total_usd : a.total_usd ≡ sum_from total (managed_costs records)
  pub priced_requests : a.priced_requests ≡ priced + length (managed_costs records)
  pub every_record :
      a.priced_requests + a.missing_usage_requests
      ≡ priced + missing + length (filter (served_by "managed") records)
  pub estimated : a.estimated ≡ ltb 0 a.priced_requests

aggregate_from-IsAggregate :
    (total : Decimal) (priced missing : ℕ) (records : List BenchmarkRecord)
    → IsAggregate total priced missing records (aggregate_from total priced missing records)
unfolding aggregate_from sum_from
aggregate_from-IsAggregate total priced missing [] = record {
  total_usd = refl;
  priced_requests = omega arith;
  every_record = omega arith;
  estimated = refl;
}
aggregate_from-IsAggregate total priced missing (r ∷ records) =
    elim (Bool-cases (served_by "managed" r)) [
      | inr other ↦
          let h = aggregate_from-IsAggregate total priced missing records in
          record {
            total_usd = ground (arith, other, h.total_usd);
            priced_requests = ground (arith, other, h.priced_requests);
            every_record = ground (arith, other, h.every_record);
            estimated = ground (arith, other, h.estimated);
          }
      | inl managed ↦ elim (Option-cases r.managed_inference_cost_usd) [
        | inl unpriced ↦
            let h = aggregate_from-IsAggregate total priced (missing + 1) records in
            record {
              total_usd = ground (arith, managed, h.total_usd);
              priced_requests = ground (arith, managed, h.priced_requests);
              every_record = ground (arith, managed, h.every_record);
              estimated = ground (arith, managed, h.estimated);
            }
        | inr (c, found) ↦
            let h = aggregate_from-IsAggregate (total +ᵈ c) (priced + 1) missing records in
            record {
              total_usd = ground (arith, managed, h.total_usd);
              priced_requests = ground (arith, managed, h.priced_requests);
              every_record = ground (arith, managed, h.every_record);
              estimated = ground (arith, managed, h.estimated);
            }
      ]
    ]

-- Every record of a managed provider is counted once, as priced or as missing its cost; the total is
-- the sum of the costs in the order of the records, and is an estimate exactly when one has a cost.
pub aggregate_managed-IsAggregate :
    (records : List BenchmarkRecord)
    → IsAggregate zero_decimal 0 0 records (aggregate_managed records)
unfolding aggregate_managed
aggregate_managed-IsAggregate records = aggregate_from-IsAggregate zero_decimal 0 0 records
