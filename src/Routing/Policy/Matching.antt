-- ===== src/Routing/Policy/Matching.antt =====
-- routing/policy.py: when a rule accepts a request, and which rule is the first.
use ai_inference_cost_optimi.Prelude.{
  String, ◌≡◌, refl, ◌↔◌, true, Option, none, some, List, ◌∷◌, arith,
}
use ai_inference_cost_optimi.Prelude.Equality.{Eq, string_eq}
use ai_inference_cost_optimi.Prelude.Members.{elem_iff, Accepts}
use ai_inference_cost_optimi.Models.Enums.{DataClass, QualityTier, class_eq, tier_eq}
use ai_inference_cost_optimi.Config.Routing.{RoutingRule}
use ai_inference_cost_optimi.Routing.Policy.{accepts, matches}

accepts_iff :
    {A : Type 0} ⦃e : Eq A⦄ (o : Option (List A)) (a : A) → (accepts o a ≡ true) ↔ Accepts o a
unfolding accepts
accepts_iff none a = (λ _. tt, λ _. refl)
accepts_iff (some xs) a = elem_iff a xs

pub record Matches (rule : RoutingRule) (c : DataClass) (w : String) (t : QualityTier)
    : Type 0 where
  pub data_class : Accepts rule.when.data_class c
  pub workload : Accepts rule.when.workload w
  pub quality_tier : Accepts rule.when.quality_tier t

pub matches_iff :
    (r : RoutingRule) (c : DataClass) (w : String) (t : QualityTier)
    → (matches r c w t ≡ true) ↔ Matches r c w t
unfolding matches
matches_iff r c w t = ground (
  arith,
  accepts_iff r.when.data_class c,
  accepts_iff r.when.workload w,
  accepts_iff r.when.quality_tier t,
)

-- `rule` is the first of the rules that accepts the request.
pub data FirstMatch (c : DataClass) (w : String) (t : QualityTier) (rule : RoutingRule)
    : List RoutingRule → Type 0 where
  here : {rules : List RoutingRule} → Matches rule c w t → FirstMatch c w t rule (rule ∷ rules)
  later :
      {r : RoutingRule} {rules : List RoutingRule}
      → ¬ Matches r c w t
      → FirstMatch c w t rule rules
      → FirstMatch c w t rule (r ∷ rules)
