-- ===== src/Benchmark/Manifest.antt =====
-- benchmark/manifest.py: the gates that a run passes before its first request. The repository, the
-- environment and the files are read by the caller: what they hold is an argument.
pub mod Gates
pub mod Publishable
pub mod Outcome
mod Examples
use ai_inference_cost_optimi.Prelude.{
  ℕ, String, Bool, true, false, not, ◌&&◌, ◌||◌, Option, none, some, List, [], ◌∷◌, ltb, eqb,
  length, filter, if◌then◌else◌, present,
}
use ai_inference_cost_optimi.Prelude.Equality.{◌==◌, string_eq}
use ai_inference_cost_optimi.Prelude.Dict.{Dict, get}
use ai_inference_cost_optimi.Prelude.Text.{blank, codes, is_digit}
use ai_inference_cost_optimi.Prelude.Result.{Result, ok, err, ◌>>=◌, ◌>>◌, raise_if}
use ai_inference_cost_optimi.Benchmark.Scenario.{BenchmarkScenario, slo_cells_used}
use ai_inference_cost_optimi.Benchmark.Slo.{SloTarget, SloDocument, require_cell}

pub record RepositoryState : Type 0 where
  pub sha : String
  pub dirty : Bool

-- A PublishabilityError, by its gate; the ValueError of a missing cell; and a KeyError.
pub data ManifestError : Type 0 where
  no_checksum : ManifestError
  missing_cell : String → ManifestError
  dirty_tree : ManifestError
  unknown_revision : ManifestError
  cell_key_error : String → ManifestError
  local_placement : List String → ManifestError
  no_deploy_manifest : ManifestError
  too_few_gpus : ManifestError
  not_autoscaled : ManifestError
  bad_dirty_value : ManifestError

-- `{cell: slo.require_cell(cell) for cell in cells}`
pub targets_of : SloDocument → List String → Result ManifestError (Dict SloTarget)
targets_of doc [] = ok []
targets_of doc (cell ∷ cells) = elim (require_cell doc cell) [
  | none ↦ err (missing_cell cell)
  | some target ↦ do rest ← targets_of doc cells; ok ((cell, target) ∷ rest)
]

abbrev or_key_error : String → Option SloTarget → Result ManifestError SloTarget
or_key_error cell none = err (cell_key_error cell)
or_key_error cell (some target) = ok target

-- `validate_publishability`, for a dataset by its checksum.
pub validate_publishability :
    BenchmarkScenario
    → RepositoryState
    → String
    → SloDocument
    → Bool
    → Result ManifestError SloTarget
unfolding targets_of
validate_publishability s repository checksum slo allow_dirty = do
  raise_if (checksum == "") no_checksum
  targets ← targets_of slo (slo_cells_used s)
  raise_if (s.publishable && repository.dirty && not allow_dirty) dirty_tree
  raise_if (s.publishable && repository.sha == "unknown") unknown_revision
  or_key_error s.slo_cell (get s.slo_cell targets)

-- The variables BENCHMARK_LOCATION, BENCHMARK_NODE and BENCHMARK_WORKLOAD_KIND, with their defaults.
pub record Placement : Type 0 where
  pub location : Option String
  pub node : Option String
  pub workload_kind : Option String

-- `not value or value == local_value`
abbrev pub is_local : Option String → String → Bool
is_local none local_value = true
is_local (some s) local_value = s == "" || s == local_value

pub missing_placement : Placement → List String
missing_placement p =
    let kind =
      if is_local p.workload_kind "local-process" then "BENCHMARK_WORKLOAD_KIND" ∷ [] else [] in
    let rest = if is_local p.node "local" then "BENCHMARK_NODE" ∷ kind else kind in
    if is_local p.location "local-mock" then "BENCHMARK_LOCATION" ∷ rest else rest

-- `_validate_publishable_placement`
pub validate_publishable_placement : BenchmarkScenario → Placement → Result ManifestError Unit
unfolding missing_placement
validate_publishable_placement s p =
    if not s.publishable then ok tt else elim (missing_placement p) [
      | [] ↦ ok tt
      | name ∷ names ↦ err (local_placement (name ∷ names))
    ]

-- What a deploy manifest says of autoscaling and GPUs: 0 where it gives no whole number of them.
pub record Autoscaling : Type 0 where
  pub enabled : Bool
  pub provider : Option String

pub record Deployment : Type 0 where
  pub gpu_count : ℕ
  pub autoscaling : Option Autoscaling

abbrev pub by_keda : Option Autoscaling → Bool
by_keda none = false
by_keda (some a) = a.enabled && elim a.provider [ none ↦ false | some p ↦ p == "keda" ]

t5_gates : Deployment → Result ManifestError Unit
t5_gates d = do
  raise_if (ltb d.gpu_count 2) too_few_gpus
  raise_if (not (by_keda d.autoscaling)) not_autoscaled

-- The end of `build_manifest`: the deploy manifest, and what treatment T5 needs of it.
pub deployment_gates : BenchmarkScenario → Option Deployment → Result ManifestError Unit
unfolding t5_gates
deployment_gates s none = raise_if s.publishable no_deploy_manifest
deployment_gates s (some d) = if s.treatment == "t5-autoscale" then t5_gates d else ok tt

-- The gates of `build_manifest`, in their order; the target goes into the manifest.
pub build_manifest :
    BenchmarkScenario
    → RepositoryState
    → String
    → SloDocument
    → Bool
    → Placement
    → Option Deployment
    → Result ManifestError SloTarget
unfolding validate_publishability validate_publishable_placement deployment_gates
build_manifest s repository checksum slo allow_dirty placement deployment = do
  target ← validate_publishability s repository checksum slo allow_dirty
  validate_publishable_placement s placement
  deployment_gates s deployment
  ok target
