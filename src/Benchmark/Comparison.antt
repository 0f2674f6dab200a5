-- ===== src/Benchmark/Comparison.antt =====
-- benchmark/comparison.py: whether the comparison of two runs supports a claim. What the manifests and
-- the summaries hold is an argument; a value of another type than the code asks for stands as none.
pub mod Claimable
pub mod Supported
mod Examples
use ai_inference_cost_optimi.Prelude.{
  ℕ, String, Bool, true, false, not, ◌&&◌, ◌||◌, Option, none, some, List, [], ◌∷◌, ltb, length,
  filter, present, eqb, ◌+◌, if◌then◌else◌,
}
use ai_inference_cost_optimi.Prelude.Equality.{Eq, ◌==◌, string_eq}
use ai_inference_cost_optimi.Prelude.Text.{blank}
use ai_inference_cost_optimi.Decimal.{Decimal, less}
use ai_inference_cost_optimi.Benchmark.Records.{BenchmarkRecord}
use ai_inference_cost_optimi.Benchmark.Manifest.{is_local}

-- A number of either sign, as the difference of two amounts.
pub record Difference : Type 0 where
  pub minuend : Decimal
  pub subtrahend : Decimal

abbrev pub below_zero : Difference → Bool
below_zero d = less d.minuend d.subtrahend

abbrev pub above_zero : Difference → Bool
above_zero d = less d.subtrahend d.minuend

pub record Interval (A : Type 0) : Type 0 where
  pub low : A
  pub high : A

-- The costs for a correct task of the two treatments, in View A and in View B.
pub record Costs : Type 0 where
  pub view_a_a : Option Decimal
  pub view_a_b : Option Decimal
  pub view_b_a : Option Decimal
  pub view_b_b : Option Decimal

-- The end of `_cost_delta`: the interval of the difference, from those of the two runs.
pub delta_ci : Option (Interval Decimal) → Option (Interval Decimal) → Option (Interval Difference)
delta_ci none b = none
delta_ci (some a) none = none
delta_ci (some a) (some b) = some (record {
  low = record { minuend = b.low; subtrahend = a.high };
  high = record { minuend = b.high; subtrahend = a.low };
})

pub record HarnessPlace : Type 0 where
  pub location : Option String
  pub node : Option String
  pub workload_kind : Option String
  pub network_path : Option String

pub record ComparedManifest : Type 0 where
  pub publishable : Bool
  pub dataset_sha256 : Option String
  pub slo_cell : Option String
  pub workload : Option String
  pub harness : Option HarnessPlace

-- `_placement_is_non_local`
pub placement_is_non_local : Option HarnessPlace → Bool
placement_is_non_local none = false
placement_is_non_local (some h) =
    not (is_local h.location "local-mock")
    && not (is_local h.node "local")
    && not (is_local h.workload_kind "local-process")
    && not (blank h.network_path)

pub record RunMetadata : Type 0 where
  pub sample_size : ℕ
  pub successful_responses : ℕ
  pub repeat_count : ℕ
  pub declared_repeat_count : Option ℕ

abbrev succeeded_record : BenchmarkRecord → Bool
succeeded_record r = not (present r.error_class)

-- `len({record.repeat_index for record in records})`
abbrev repeats_before : ℕ → List BenchmarkRecord → Bool
repeats_before n [] = false
repeats_before n (r ∷ records) = eqb n r.repeat_index || repeats_before n records

distinct_repeats : List BenchmarkRecord → ℕ
distinct_repeats [] = 0
distinct_repeats (r ∷ records) =
    (if repeats_before r.repeat_index records then 0 else 1) + distinct_repeats records

-- `_run_metadata`, with the repeats that the scenario declares.
pub run_metadata : Option ℕ → List BenchmarkRecord → RunMetadata
unfolding distinct_repeats
run_metadata declared records = record {
  sample_size = length records;
  successful_responses = length (filter succeeded_record records);
  repeat_count = distinct_repeats records;
  declared_repeat_count = declared;
}

pub data Treatment : Type 0 where
  treatment_a treatment_b : Treatment

-- The conditions that may fail, in the order of the checks.
pub data Condition : Type 0 where
  both_publishable same_checksum same_cell same_workload : Condition
  enough_repeats enough_successes non_local : Treatment → Condition
  costs_present same_direction : Condition

-- `not a or a != b`
abbrev pub missing_or_other : Option String → Option String → Bool
missing_or_other none b = true
missing_or_other (some x) none = true
missing_or_other (some x) (some y) = x == "" || not (x == y)

abbrev pub too_few_declared : Option ℕ → Bool
too_few_declared none = true
too_few_declared (some n) = ltb n 3

-- `if bad: failed.append(condition)`, before the checks that follow.
abbrev pub note : Bool → Condition → List Condition → List Condition
note bad c rest = if bad then c ∷ rest else rest

-- One round of the loop over the metadata.
pub metadata_checks : Treatment → RunMetadata → List Condition → List Condition
metadata_checks t m rest =
    note (ltb m.repeat_count 3 || too_few_declared m.declared_repeat_count) (enough_repeats t)
      (note (ltb m.successful_responses 200) (enough_successes t) rest)

pub costs_complete : Costs → Option (Interval Difference) → Bool
costs_complete c ci =
    present c.view_a_a
    && present c.view_a_b
    && present c.view_b_a
    && present c.view_b_b
    && present ci

-- The cheaper treatment, if its quality is not worse.
pub direction_of : Option (Interval Difference) → Interval Difference → Option Treatment
direction_of none quality = none
direction_of (some delta) quality =
    if below_zero delta.high && not (below_zero quality.low)
    then some treatment_b
    else if above_zero delta.low && not (above_zero quality.high)
    then some treatment_a
    else none

-- The failed conditions of `_claimability`.
pub failed_conditions :
    ComparedManifest
    → ComparedManifest
    → RunMetadata
    → RunMetadata
    → Interval Difference
    → Costs
    → Option (Interval Difference)
    → List Condition
unfolding metadata_checks
failed_conditions a b ma mb quality costs delta =
    note (not a.publishable || not b.publishable) both_publishable (
      note (missing_or_other a.dataset_sha256 b.dataset_sha256) same_checksum (
        note (missing_or_other a.slo_cell b.slo_cell) same_cell (
          note (missing_or_other a.workload b.workload) same_workload (
            metadata_checks treatment_a ma (
              metadata_checks treatment_b mb (
                note (not (placement_is_non_local a.harness)) (non_local treatment_a) (
                  note (not (placement_is_non_local b.harness)) (non_local treatment_b) (
                    note (not (costs_complete costs delta)) costs_present
                      (note (not (present (direction_of delta quality))) same_direction [])))))))))

pub record Claimability : Type 0 where
  pub supported : Bool
  pub direction : Option Treatment
  pub failed : List Condition

-- `_claimability`
pub claimability :
    ComparedManifest
    → ComparedManifest
    → RunMetadata
    → RunMetadata
    → Interval Difference
    → Costs
    → Option (Interval Difference)
    → Claimability
unfolding failed_conditions
claimability a b ma mb quality costs delta =
    let failed = failed_conditions a b ma mb quality costs delta in
    record {
      supported = elim failed [ [] ↦ true | c ∷ rest ↦ false ];
      direction = direction_of delta quality;
      failed = failed;
    }
