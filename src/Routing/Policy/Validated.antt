-- ===== src/Routing/Policy/Validated.antt =====
-- routing/policy.py under a policy that validation accepted: the route of the first rule that
-- matches is taken whole, and no lookup fails.
use mathlib.Core.Bool.{false≢true}
use ai_inference_cost_optimi.Prelude.{
  subst, String, ◌≡◌, ◌≢◌, refl, inl, inr, true, false, Option, none, some, List, [], ◌∷◌, All,
  present, Bool-cases, if◌then◌else◌, sym, ◌∙◌,
}
use ai_inference_cost_optimi.Prelude.Dict.{Dict, get}
use ai_inference_cost_optimi.Prelude.Members.{Accepts}
use ai_inference_cost_optimi.Prelude.Result.{Result, ok, err}
use ai_inference_cost_optimi.Models.Enums.{DataClass, restricted, QualityTier, class_eq}
use ai_inference_cost_optimi.Config.Routing.{
  RoutingProviderConfig, RoutingRule, RoutingPolicy, is_external,
}
use ai_inference_cost_optimi.Config.Routing.Restricted.{IsRouteSafe}
use ai_inference_cost_optimi.Config.Routing.Validated.{IsSoundPolicy}
use ai_inference_cost_optimi.Routing.Policy.{
  RouteDecision, providers, RouteError, no_rule_matches, matches, keep_private, is_restricted,
  make_decision, decide_rule, select_from, select_route,
}
use ai_inference_cost_optimi.Routing.Policy.Matching.{Matches, matches_iff, FirstMatch, here, later}
use ai_inference_cost_optimi.Routing.Policy.Selection.{Private, keep_private-All}

Private-of_known :
    (known : Dict RoutingProviderConfig) (name : String)
    → present (get name known) ≡ true
    → is_external known name ≡ false
    → Private known name
Private-of_known known name h e = go (get name known) refl h e
  where
    go :
        (o : Option RoutingProviderConfig)
        → get name known ≡ o
        → present o ≡ true
        → elim o [ none ↦ false | some p ↦ p.external ] ≡ false
        → Private known name
    go none found h e = cc
    go (some p) found h e = (p, found, e)

All-Private :
    (known : Dict RoutingProviderConfig) (route : List String)
    → All (λ name. present (get name known) ≡ true) route
    → All (λ name. is_external known name ≡ false) route
    → All (Private known) route
All-Private known [] h e = tt
All-Private known (name ∷ route) h e =
    (Private-of_known known name h.0 e.0, All-Private known route h.1 e.1)

-- The decision takes the whole route of the rule.
abbrev pub WholeRoute : RoutingRule → RouteDecision → Type 0
WholeRoute rule d = (d.rule_name ≡ rule.name) × (providers d ≡ rule.route)

make_whole :
    (name : String) (route : List String)
    → route ≢ []
    → (d : RouteDecision) × (make_decision name route ≡ ok d)
      × ((d.rule_name ≡ name) × (providers d ≡ route))
unfolding make_decision
make_whole name [] routed = absurd (routed refl)
make_whole name (primary ∷ fallbacks) routed = (_, refl, (refl, refl))

module _ (known : Dict RoutingProviderConfig) (c : DataClass) (w : String) (t : QualityTier) where
  -- Where the rule matches, the runtime filter keeps its route.
  filter_keeps :
      (rule : RoutingRule)
      → IsRouteSafe known rule
      → matches rule c w t ≡ true
      → c ≡ restricted
      → keep_private known rule.route ≡ ok rule.route
  filter_keeps rule safe m e = keep_private-All known rule.route (
      All-Private known rule.route safe.known (
        safe.private
          (subst (Accepts rule.when.data_class) e ((matches_iff rule c w t).0 m).data_class)))

  route_taken :
      (rule : RoutingRule)
      → IsRouteSafe known rule
      → matches rule c w t ≡ true
      → (if is_restricted c then keep_private known rule.route else ok rule.route) ≡ ok rule.route
  route_taken rule safe m = elim (Bool-cases (is_restricted c)) [
    | inl e ↦ rw e (filter_keeps rule safe m ((class_eq.same_iff c restricted).0 e))
    | inr e ↦ rw e
  ]

  decide_whole :
      (rule : RoutingRule)
      → IsRouteSafe known rule
      → rule.route ≢ []
      → matches rule c w t ≡ true
      → (d : RouteDecision) × (decide_rule known c rule ≡ ok d) × WholeRoute rule d
  unfolding decide_rule
  decide_whole rule safe routed m =
      let (d, e, whole) = make_whole rule.name rule.route routed in
      (d, rw (route_taken rule safe m) e, (whole.0, whole.1))

  -- What the loop returns: the whole route of the first rule that matches, or the denial of a
  -- request that no rule matches.
  abbrev pub Outcome : List RoutingRule → Result RouteError RouteDecision → Type 0
  Outcome rules (ok d) = (rule : RoutingRule) × FirstMatch c w t rule rules × WholeRoute rule d
  Outcome rules (err e) = (e ≡ no_rule_matches) × All (λ rule. ¬ Matches rule c w t) rules

  Outcome-later :
      (rule : RoutingRule) (rules : List RoutingRule) (r : Result RouteError RouteDecision)
      → ¬ Matches rule c w t
      → Outcome rules r
      → Outcome (rule ∷ rules) r
  Outcome-later rule rules (ok d) other (found, first, whole) = (found, later other first, whole)
  Outcome-later rule rules (err e) other (same, none_matches) = (same, (other, none_matches))

  select_from-Outcome :
      (rules : List RoutingRule)
      → All (IsRouteSafe known) rules
      → All (λ r. r.route ≢ []) rules
      → Outcome rules (select_from known rules c w t)
  unfolding select_from
  select_from-Outcome [] safe routed = (refl, tt)
  select_from-Outcome (rule ∷ rules) safe routed = elim (Bool-cases (matches rule c w t)) [
    | inl m ↦
        let (d, e, whole) = decide_whole rule safe.0 routed.0 m in
        rw (m, e) (rule, here ((matches_iff rule c w t).0 m), whole)
    | inr m ↦ rw m (
        Outcome-later rule rules _ (λ h. false≢true (sym m ∙ (matches_iff rule c w t).1 h))
          (select_from-Outcome rules safe.1 routed.1))
  ]

-- Under a sound policy the decision is the whole route of the first rule that matches; a request is
-- denied exactly when no rule matches it; and no lookup of a provider fails.
pub select_route-Outcome :
    (policy : RoutingPolicy) (c : DataClass) (w : String) (t : QualityTier)
    → IsSoundPolicy policy
    → Outcome policy.providers c w t policy.rules (select_route policy c w t)
select_route-Outcome policy c w t sound =
    unfold select_route in
    select_from-Outcome policy.providers c w t policy.rules sound.safe sound.routed
