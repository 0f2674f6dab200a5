-- ===== src/Routing/Policy.antt =====
-- routing/policy.py: the first rule that accepts a request gives its route.
pub mod Matching
pub mod Selection
pub mod Validated
mod Examples
use ai_inference_cost_optimi.Prelude.{
  String, Bool, true, false, not, ◌&&◌, Option, none, some, List, [], ◌∷◌, if◌then◌else◌,
}
use ai_inference_cost_optimi.Prelude.Equality.{Eq, ◌==◌, string_eq, elem}
use ai_inference_cost_optimi.Prelude.Dict.{Dict, get}
use ai_inference_cost_optimi.Prelude.Result.{Result, ok, err, ◌>>=◌}
use ai_inference_cost_optimi.Models.Enums.{
  DataClass, public, internal, confidential, restricted, QualityTier, class_eq, tier_eq,
}
use ai_inference_cost_optimi.Config.Routing.{
  RoutingProviderConfig, RuleMatch, RoutingRule, RoutingPolicy,
}

pub record RouteDecision : Type 0 where
  pub rule_name : String
  pub primary : String
  pub fallbacks : List String

abbrev pub providers : RouteDecision → List String
providers d = d.primary ∷ d.fallbacks

-- `PolicyDenied` with the two reasons, and the KeyError of `policy.providers[name]`.
pub data RouteError : Type 0 where
  no_permitted_provider : String → RouteError
  no_rule_matches : RouteError
  key_error : String → RouteError

-- A match block with no list accepts every value.
pub accepts {ℓ} : {A : Type ℓ} ⦃e : Eq A⦄ → Option (List A) → A → Bool
accepts none a = true
accepts (some allowed) a = elem a allowed

pub matches : RoutingRule → DataClass → String → QualityTier → Bool
matches rule data_class workload quality_tier =
    accepts rule.when.data_class data_class
    && (accepts rule.when.workload workload && accepts rule.when.quality_tier quality_tier)

-- `[name for name in route if not policy.providers[name].external]`
pub keep_private : Dict RoutingProviderConfig → List String → Result RouteError (List String)
keep_private known [] = ok []
keep_private known (name ∷ route) = elim (get name known) [
  | none ↦ err (key_error name)
  | some p ↦ do rest ← keep_private known route; ok (if p.external then rest else name ∷ rest)
]

abbrev pub is_restricted : DataClass → Bool
is_restricted c = c == restricted

-- What is left of the route is the decision; nothing left is a denial.
make_decision : String → List String → Result RouteError RouteDecision
make_decision name [] = err (no_permitted_provider name)
make_decision name (primary ∷ fallbacks) =
    ok (record { rule_name = name; primary = primary; fallbacks = fallbacks })

-- The body of the loop, for a rule that matches.
decide_rule : Dict RoutingProviderConfig → DataClass → RoutingRule → Result RouteError RouteDecision
decide_rule known data_class rule = do
  route ← if is_restricted data_class then keep_private known rule.route else ok rule.route
  make_decision rule.name route

select_from :
    Dict RoutingProviderConfig
    → List RoutingRule
    → DataClass
    → String
    → QualityTier
    → Result RouteError RouteDecision
select_from known [] data_class workload quality_tier = err no_rule_matches
select_from known (rule ∷ rules) data_class workload quality_tier =
    let rest = select_from known rules data_class workload quality_tier in
    if not (matches rule data_class workload quality_tier)
    then rest
    else decide_rule known data_class rule

pub select_route :
    RoutingPolicy → DataClass → String → QualityTier → Result RouteError RouteDecision
unfolding select_from matches accepts decide_rule keep_private make_decision
select_route policy data_class workload quality_tier =
    select_from policy.providers policy.rules data_class workload quality_tier
