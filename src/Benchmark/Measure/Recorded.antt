-- ===== src/Benchmark/Measure/Recorded.antt =====
-- benchmark/harness.py: a measured request always has a record, and a failed one is never correct.
use ai_inference_cost_optimi.Prelude.{ℕ, ◌≡◌, Bool, false, Option, none, some}
use ai_inference_cost_optimi.Prelude.Dict.{Dict}
use ai_inference_cost_optimi.Prelude.Result.{ok}
use ai_inference_cost_optimi.Decimal.{Decimal}
use ai_inference_cost_optimi.Models.Enums.{ErrorClass}
use ai_inference_cost_optimi.Benchmark.Scenario.{
  Workload, classification, structured_extraction, generation, BenchmarkScenario,
}
use ai_inference_cost_optimi.Benchmark.Records.{BenchmarkRecord, validate_record}
use ai_inference_cost_optimi.Benchmark.Harness.{usage_record, request_profile}
use ai_inference_cost_optimi.Benchmark.Request.{
  Target, label_target, fields_target, Seen, recorded_error,
}
use ai_inference_cost_optimi.Benchmark.Measure.{Reply}

-- A target that the workload's evaluator takes.
abbrev pub Fits : {O : Type 0} → Workload → Target O → Type 0
Fits generation target = Unit
Fits classification (label_target t) = Unit
Fits structured_extraction (fields_target o) = Unit
Fits _ target = ⊥

-- What the record says of the task, by the error.
abbrev pub Judged : Workload → Option ErrorClass → Option Bool → Type 0
Judged generation error correct = correct ≡ none
Judged w none correct = (b : Bool) × (correct ≡ some b)
Judged w (some c) correct = correct ≡ some false

-- What the record of a request is, from its scenario, its answer and the index.
pub record IsRecorded (s : BenchmarkScenario) (request_index : ℕ) (reply : Reply) (seen : Seen)
    (r : BenchmarkRecord) : Type 0 where
  pub valid : validate_record r ≡ ok r
  pub profile : request_profile s request_index ≡ some (r.data_class, r.quality_tier)
  pub error : r.error_class ≡ recorded_error reply.status seen
  pub judged : Judged s.workload r.error_class r.task_correct
  pub counted : r.usage ≡ usage_record seen.usage
