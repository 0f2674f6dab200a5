-- ===== src/Benchmark/Scenario.antt =====
-- benchmark/models.py: the load of one benchmark run, and the shape that its evidence requires.
-- Names of files, versions and free text, which no modelled operation reads, are left out.

pub mod Validated
pub mod Cells
use Prim.Native.String.{◌++◌ as append}
use ai_inference_cost_optimi.Prelude.{
  ℕ, String, Bool, true, false, not, ◌&&◌, ◌||◌, List, [], ◌∷◌, ltb, eqb, length, filter, map,
}
use ai_inference_cost_optimi.Prelude.Equality.{◌==◌, string_eq, elem}
use ai_inference_cost_optimi.Prelude.Result.{Result, ok, err, ◌>>=◌, ◌>>◌, raise_if, check_all}
use ai_inference_cost_optimi.Models.Enums.{
  DataClass, QualityTier, economy, balanced, premium, tier_value, tier_eq,
}

pub data Workload : Type 0 where
  classification structured_extraction generation : Workload

pub data ProviderMode : Type 0 where
  managed_mode private_mode hybrid local_mock : ProviderMode

pub data EconomicView : Type 0 where
  view_a view_b : EconomicView

pub record RequestProfile : Type 0 where
  pub data_class : DataClass
  pub quality_tier : QualityTier
  pub weight : ℕ

pub record BenchmarkScenario : Type 0 where
  pub treatment : String
  pub workload : Workload
  pub provider_mode : ProviderMode
  pub stream : Bool
  pub requests : ℕ
  pub data_class : DataClass
  pub quality_tier : QualityTier
  pub slo_cell : String
  pub model : String
  pub publishable : Bool
  pub economic_views : List EconomicView
  pub request_mix : List RequestProfile

pub data ScenarioError : Type 0 where
  weight_out_of_range : ScenarioError
  views_not_both : ScenarioError
  wrong_slo_cell : ScenarioError
  hybrid_needs_profiles : ScenarioError
  mix_not_hybrid : ScenarioError

abbrev is_view_a : EconomicView → Bool
is_view_a view_a = true
is_view_a view_b = false

abbrev pub is_hybrid : ProviderMode → Bool
is_hybrid hybrid = true
is_hybrid _ = false

-- The dictionary from a workload to the prefix of its cells.
pub workload_id : Workload → String
workload_id classification = "WL-01"
workload_id structured_extraction = "WL-02"
workload_id generation = "WL-03"

unfoldable pub cell_name : Workload → QualityTier → String
unfolding workload_id tier_value
cell_name w tier = append (workload_id w) (append "/" (tier_value tier))

-- `weight: int = Field(ge=1, le=1000)`
profile_fields : RequestProfile → Result ScenarioError Unit
profile_fields p = raise_if (eqb p.weight 0 || ltb 1000 p.weight) weight_out_of_range

-- `len(set(views)) != 2`, for a list of two names
abbrev both_views : List EconomicView → Bool
both_views views =
    not (eqb (length (filter is_view_a views)) 0)
    && not (eqb (length (filter (λ v. not (is_view_a v)) views)) 0)

abbrev no_mix : List RequestProfile → Bool
no_mix mix = eqb (length mix) 0

-- The profiles' bounds, and `BenchmarkScenario.validate_evidence_shape`.
unfoldable pub validate_evidence_shape : BenchmarkScenario → Result ScenarioError BenchmarkScenario
unfolding profile_fields cell_name
validate_evidence_shape s = do
  check_all profile_fields s.request_mix
  raise_if (not (both_views s.economic_views)) views_not_both
  raise_if (not (s.slo_cell == cell_name s.workload s.quality_tier)) wrong_slo_cell
  raise_if (is_hybrid s.provider_mode && ltb (length s.request_mix) 2) hybrid_needs_profiles
  raise_if (not (is_hybrid s.provider_mode) && not (no_mix s.request_mix)) mix_not_hybrid
  ok s

-- The tiers that carry traffic: those of the mix, or the scenario's own.
pub tiers_used : BenchmarkScenario → List QualityTier
tiers_used s = elim s.request_mix [
  | [] ↦ s.quality_tier ∷ []
  | p ∷ mix ↦ p.quality_tier ∷ map RequestProfile.quality_tier mix
]

-- `BenchmarkScenario.slo_cells_used`: a set's members in the order of their names.
unfoldable pub slo_cells_used : BenchmarkScenario → List String
unfolding tiers_used
slo_cells_used s =
    map (cell_name s.workload)
      (filter (λ tier. elem tier (tiers_used s)) (balanced ∷ economy ∷ premium ∷ []))
