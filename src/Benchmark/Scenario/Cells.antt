-- ===== src/Benchmark/Scenario/Cells.antt =====
-- benchmark/models.py: the cells of a scenario, by the tiers of its traffic.
use ai_inference_cost_optimi.Prelude.{
  String, ◌≡◌, refl, ◌∙◌, Bool, not, List, [], ◌∷◌, map, if◌then◌else◌, arith, not-true,
}
use text.Mathlib.TextEquality.{eq_iff}
use ai_inference_cost_optimi.Prelude.Equality.{◌==◌, string_eq, elem}
use ai_inference_cost_optimi.Prelude.Result.{ok, raise_if-ok, bind-Through, check_all}
use ai_inference_cost_optimi.Models.Enums.{QualityTier, economy, balanced, premium, tier_eq}
use ai_inference_cost_optimi.Benchmark.Scenario.{
  Workload, classification, structured_extraction, generation, BenchmarkScenario, cell_name,
  tiers_used, slo_cells_used, profile_fields, both_views, views_not_both, wrong_slo_cell,
  validate_evidence_shape,
}

-- The cells of three tiers of which some carry traffic.
picked : Workload → Bool → Bool → Bool → List String
picked w b e p = map (cell_name w) (
    if b
    then balanced
      ∷ (if e then economy ∷ (if p then premium ∷ [] else []) else if p then premium ∷ [] else [])
    else if e
    then economy ∷ (if p then premium ∷ [] else [])
    else if p
    then premium ∷ []
    else [])

own : QualityTier → Bool → Bool → Bool → Bool
own economy b e p = e
own balanced b e p = b
own premium b e p = p

elem-picked :
    (w : Workload) (t : QualityTier) (b e p : Bool)
    → elem (cell_name w t) (picked w b e p) ≡ own t b e p
unfolding picked own cell_name
elem-picked classification economy b e p = ground arith
elem-picked classification balanced b e p = ground arith
elem-picked classification premium b e p = ground arith
elem-picked structured_extraction economy b e p = ground arith
elem-picked structured_extraction balanced b e p = ground arith
elem-picked structured_extraction premium b e p = ground arith
elem-picked generation economy b e p = ground arith
elem-picked generation balanced b e p = ground arith
elem-picked generation premium b e p = ground arith

own-elem :
    (t : QualityTier) (ts : List QualityTier)
    → own t (elem balanced ts) (elem economy ts) (elem premium ts) ≡ elem t ts
unfolding own
own-elem economy ts = refl
own-elem balanced ts = refl
own-elem premium ts = refl

-- A cell of the workload carries traffic just if its tier does.
pub elem-slo_cells_used :
    (s : BenchmarkScenario) (t : QualityTier)
    → elem (cell_name s.workload t) (slo_cells_used s) ≡ elem t (tiers_used s)
unfolding slo_cells_used picked
elem-slo_cells_used s t =
    let ts = tiers_used s in
    elem-picked s.workload t (elem balanced ts) (elem economy ts) (elem premium ts) ∙ own-elem t ts

-- The cell of a valid scenario is that of its workload and tier.
pub validate_evidence_shape-slo_cell :
    (s : BenchmarkScenario)
    → validate_evidence_shape s ≡ ok s
    → s.slo_cell ≡ cell_name s.workload s.quality_tier
unfolding validate_evidence_shape
validate_evidence_shape-slo_cell s h =
    let cell = cell_name s.workload s.quality_tier in
    let (u, a, v1) = bind-Through (check_all profile_fields s.request_mix) _ h in
    let (b, v2) = raise_if-ok (not (both_views s.economic_views)) views_not_both _ v1 in
    let (c, v3) = raise_if-ok (not (s.slo_cell == cell)) wrong_slo_cell _ v2 in
    (eq_iff s.slo_cell cell).0 (not-true (s.slo_cell == cell) c)
