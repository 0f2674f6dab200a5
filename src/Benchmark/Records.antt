-- ===== src/Benchmark/Records.antt =====
-- benchmark/models.py: the record of one request. Costs are amounts at prices that are not negative,
-- times are microseconds. The score of an evaluator and the names of run and item's difficulty, which
-- no modelled operation reads, are left out.
use ai_inference_cost_optimi.Prelude.{
  ℕ, String, Bool, true, false, ◌&&◌, ◌||◌, Option, ltb, present,
}
use ai_inference_cost_optimi.Prelude.Result.{Result, ok, ◌>>◌, raise_if}
use ai_inference_cost_optimi.Decimal.{Decimal}
use ai_inference_cost_optimi.Models.Enums.{DataClass, QualityTier, UsageSource, ErrorClass}
use ai_inference_cost_optimi.Benchmark.Scenario.{Workload, generation}

pub record TokenUsageRecord : Type 0 where
  pub input_tokens : Option ℕ
  pub visible_output_tokens : Option ℕ
  pub billed_input_tokens : Option ℕ
  pub billed_output_tokens : Option ℕ
  pub source : UsageSource

pub record BenchmarkRecord : Type 0 where
  pub repeat_index : ℕ
  pub workload : Workload
  pub dataset_item_id : String
  pub data_class : DataClass
  pub quality_tier : QualityTier
  pub route : Option String
  pub provider : Option String
  pub model_alias : String
  pub started_at : ℕ
  pub completed_at : ℕ
  pub ttft : Option ℕ
  pub usage : TokenUsageRecord
  pub http_status : ℕ
  pub finish_reason : Option String
  pub error_class : Option ErrorClass
  pub fallback_count : ℕ
  pub task_correct : Option Bool
  pub managed_inference_cost_usd : Option Decimal

pub data RecordError : Type 0 where
  field_constraint : String → RecordError
  completed_before_start : RecordError
  generation_with_task_correct : RecordError

abbrev pub is_generation : Workload → Bool
is_generation generation = true
is_generation _ = false

-- The bounds of the fields that the harness does not compute from bounded ones, and
-- `BenchmarkRecord.timestamps_are_utc_and_ordered`, of times in UTC.
unfoldable pub validate_record : BenchmarkRecord → Result RecordError BenchmarkRecord
validate_record r = do
  raise_if (ltb r.repeat_index 1) (field_constraint "repeat_index")
  raise_if (ltb r.http_status 100 || ltb 599 r.http_status) (field_constraint "http_status")
  raise_if (ltb r.completed_at r.started_at) completed_before_start
  raise_if (is_generation r.workload && present r.task_correct) generation_with_task_correct
  ok r
