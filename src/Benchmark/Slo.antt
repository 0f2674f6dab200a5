-- ===== src/Benchmark/Slo.antt =====
-- benchmark/slo.py: the targets of a run, by the cell of its workload and quality tier.
use text.Mathlib.Text.{starts_with}
use ai_inference_cost_optimi.Prelude.{
  ℕ, String, Bool, false, not, ◌&&◌, ◌||◌, Option, none, some, eqb, length, present,
}
use ai_inference_cost_optimi.Prelude.Dict.{Dict, get}
use ai_inference_cost_optimi.Prelude.Result.{Result, ok, ◌>>◌, raise_if, check_all}
use ai_inference_cost_optimi.Decimal.{Decimal, whole, less}

pub record SloTarget : Type 0 where
  pub p95_ttft_ms : ℕ
  pub p95_e2e_ms : ℕ
  pub max_error_rate : Decimal
  pub min_quality_rate : Option Decimal

pub record SloDocument : Type 0 where
  pub cells : Dict SloTarget

pub data SloError : Type 0 where
  slo_field : String → SloError
  invalid_cell : String → SloError
  quality_on_generation : String → SloError
  quality_missing : String → SloError

-- `Field(ge=0, le=1)` of an optional rate
abbrev over_one : Option Decimal → Bool
over_one none = false
over_one (some rate) = less (whole 1) rate

-- The bounds of `SLOTarget`.
target_fields : String × SloTarget → Result SloError Unit
target_fields (cell, t) = do
  raise_if (eqb t.p95_ttft_ms 0) (slo_field "p95_ttft_ms")
  raise_if (eqb t.p95_e2e_ms 0) (slo_field "p95_e2e_ms")
  raise_if (less (whole 1) t.max_error_rate) (slo_field "max_error_rate")
  raise_if (over_one t.min_quality_rate) (slo_field "min_quality_rate")

-- One round of `workload_quality_rules`.
cell_rules : String × SloTarget → Result SloError Unit
cell_rules (cell, t) = do
  raise_if
      (not (starts_with cell "WL-01/" || starts_with cell "WL-02/" || starts_with cell "WL-03/"))
      (invalid_cell cell)
  raise_if (starts_with cell "WL-03/" && present t.min_quality_rate) (quality_on_generation cell)
  raise_if (not (starts_with cell "WL-03/") && not (present t.min_quality_rate))
      (quality_missing cell)

-- `SLODocument.model_validate`
unfoldable pub validate_slo : SloDocument → Result SloError SloDocument
unfolding target_fields cell_rules
validate_slo doc = do
  raise_if (eqb (length doc.cells) 0) (slo_field "cells")
  check_all target_fields doc.cells
  check_all cell_rules doc.cells
  ok doc

-- `SLODocument.require_cell`; none is its ValueError.
abbrev pub require_cell : SloDocument → String → Option SloTarget
require_cell doc cell = get cell doc.cells
