-- ===== src/Benchmark/Scenario/Validated.antt =====
-- benchmark/models.py: what the validation of a scenario gives.
use ai_inference_cost_optimi.Prelude.{◌≤◌, ◌≡◌, refl, arith, All, All-map_lem}
use ai_inference_cost_optimi.Prelude.Equality.{string_eq}
use ai_inference_cost_optimi.Prelude.Result.{ok, err, ◌>>◌, Result, check_all_iff}
use ai_inference_cost_optimi.Benchmark.Scenario.{
  RequestProfile, BenchmarkScenario, ScenarioError, profile_fields, validate_evidence_shape,
}

abbrev pub AtLeastOne : RequestProfile → Type 0
AtLeastOne p = 1 ≤ p.weight

profile_fields-AtLeastOne : (p : RequestProfile) → profile_fields p ≡ ok tt → AtLeastOne p
unfolding profile_fields
profile_fields-AtLeastOne p h = ground arith

after_check :
    {A : Type 0} (m : Result ScenarioError Unit) (k : Result ScenarioError A) {a : A}
    → (m >> k) ≡ ok a
    → m ≡ ok tt
after_check (ok u) k h = refl
after_check (err e) k h = cc

pub validate_evidence_shape-AtLeastOne :
    (s : BenchmarkScenario) → validate_evidence_shape s ≡ ok s → All AtLeastOne s.request_mix
unfolding validate_evidence_shape
validate_evidence_shape-AtLeastOne s h =
    All-map_lem profile_fields-AtLeastOne s.request_mix
      ((check_all_iff profile_fields s.request_mix).0 (after_check _ _ h))
