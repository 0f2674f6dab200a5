-- ===== src/Routing/Policy/Selection.antt =====
-- routing/policy.py: what `select_route` chooses, and that restricted data stays private.
use ai_inference_cost_optimi.Prelude.{
  String, ◌≡◌, refl, inl, inr, Bool, true, false, Option, none, some, List, [], ◌∷◌, arith, All,
  Bool-cases, if◌then◌else◌,
}
use ai_inference_cost_optimi.Prelude.Dict.{Dict, get}
use ai_inference_cost_optimi.Prelude.Result.{ok, err, ◌>>=◌, OnOk, OnOk-bind, at_ok}
use ai_inference_cost_optimi.Models.Enums.{restricted, QualityTier, class_eq}
use ai_inference_cost_optimi.Config.Routing.{RoutingProviderConfig, RoutingRule, RoutingPolicy}
use ai_inference_cost_optimi.Routing.Policy.{
  RouteDecision, providers, key_error, matches, keep_private, make_decision, decide_rule,
  select_from, select_route,
}

-- A provider that the policy knows, and that is not external.
abbrev pub Private : Dict RoutingProviderConfig → String → Type 0
Private known name = (p : RoutingProviderConfig) × (get name known ≡ some p) × (p.external ≡ false)

cons-Private :
    (known : Dict RoutingProviderConfig) (name : String) (p : RoutingProviderConfig)
    → get name known ≡ some p
    → (rest : List String) → All (Private known) rest
    → All (Private known) (if p.external then rest else name ∷ rest)
cons-Private known name p found rest h = go p.external refl
  where
    go : (b : Bool) → p.external ≡ b → All (Private known) (if b then rest else name ∷ rest)
    go true e = h
    go false e = ((p, found, e), h)

pub keep_private-Private :
    (known : Dict RoutingProviderConfig) (route : List String)
    → OnOk (All (Private known)) (keep_private known route)
unfolding keep_private
keep_private-Private known [] = tt
keep_private-Private known (name ∷ route) =
    go (get name known) refl (keep_private-Private known route)
  where
    go :
        (o : Option RoutingProviderConfig)
        → get name known ≡ o
        → OnOk (All (Private known)) (keep_private known route)
        → OnOk (All (Private known)) (elim o [
          | none ↦ err (key_error name)
          | some p ↦
              keep_private known route >>= λ rest. ok (if p.external then rest else name ∷ rest)
        ])
    go none e h = tt
    go (some p) e h =
        OnOk-bind (All (Private known)) (All (Private known)) (keep_private known route) _ h
          (cons-Private known name p e)

pub keep_private-All :
    (known : Dict RoutingProviderConfig) (route : List String)
    → All (Private known) route
    → keep_private known route ≡ ok route
unfolding keep_private
keep_private-All known [] h = refl
keep_private-All known (name ∷ route) ((p, found, private), rest) =
    ground (arith, keep_private-All known route rest)

decide_rule-Private :
    (known : Dict RoutingProviderConfig) (rule : RoutingRule)
    → OnOk (λ d. All (Private known) (providers d)) (decide_rule known restricted rule)
unfolding decide_rule make_decision
decide_rule-Private known rule =
    OnOk-bind (All (Private known)) (λ d. All (Private known) (providers d))
      (keep_private known rule.route) _ (keep_private-Private known rule.route)
      (elim [ [] ↦ λ h. tt | primary ∷ fallbacks ↦ λ h. h ])

select_from-Private :
    (known : Dict RoutingProviderConfig) (rules : List RoutingRule) (w : String) (t : QualityTier)
    → OnOk (λ d. All (Private known) (providers d)) (select_from known rules restricted w t)
unfolding select_from
select_from-Private known [] w t = tt
select_from-Private known (rule ∷ rules) w t = elim (Bool-cases (matches rule restricted w t)) [
  | inl e ↦ rw e (decide_rule-Private known rule)
  | inr e ↦ rw e (select_from-Private known rules w t)
]

-- Every provider of a decision for restricted data is known and not external, whatever the policy,
-- the workload and the tier.
pub select_route-Private :
    (policy : RoutingPolicy) (workload : String) (tier : QualityTier) (d : RouteDecision)
    → select_route policy restricted workload tier ≡ ok d
    → All (Private policy.providers) (providers d)
select_route-Private policy workload tier d =
    at_ok (λ d. All (Private policy.providers) (providers d)) _
      (unfold select_route in select_from-Private policy.providers policy.rules workload tier)
