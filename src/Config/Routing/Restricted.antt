-- ===== src/Config/Routing/Restricted.antt =====
-- config/schema.py: what a validated routing policy guarantees.
use ai_inference_cost_optimi.Prelude.{
  String, ◌≡◌, ◌↔◌, refl, Option-cases, Bool, true, false, not, arith, length, filter, All,
  All-map_lem, present, Bool-cases, inl, inr, length-filter_zero, not-true, not-false,
}
use ai_inference_cost_optimi.Prelude.Dict.{Dict, get}
use ai_inference_cost_optimi.Prelude.Members.{Accepts, elem_iff}
use ai_inference_cost_optimi.Prelude.Result.{ok, check_all_iff}
use ai_inference_cost_optimi.Models.Enums.{restricted, class_eq}
use ai_inference_cost_optimi.Config.Routing.{
  RoutingProviderConfig, RuleMatch, RoutingRule, RoutingPolicy, check_route, is_external,
  matches_restricted, routes_are_known_and_restricted_is_private,
}

matches_restricted_iff :
    (when : RuleMatch) → (matches_restricted when ≡ true) ↔ Accepts when.data_class restricted
matches_restricted_iff when = elim (Option-cases when.data_class) [
  | inl e ↦ rw e (λ h. tt, λ h. refl)
  | inr (classes, e) ↦ rw e (elem_iff restricted classes)
]

-- The route names only providers of the policy, and no external one if the rule may match
-- restricted data.
pub record IsRouteSafe (providers : Dict RoutingProviderConfig) (rule : RoutingRule) : Type 0 where
  pub known : All (λ name. present (get name providers) ≡ true) rule.route
  pub private :
      Accepts rule.when.data_class restricted
      → All (λ name. is_external providers name ≡ false) rule.route

abbrev unknown : Dict RoutingProviderConfig → String → Bool
unknown providers name = not (present (get name providers))

-- The two lists that a round computes are empty exactly when the route is safe.
check_route_lengths :
    (providers : Dict RoutingProviderConfig) (rule : RoutingRule)
    → (check_route providers rule ≡ ok tt) ↔ (
        (length (filter (unknown providers) rule.route) ≡ 0)
        × (matches_restricted rule.when ≡ true
            → length (filter (is_external providers) rule.route) ≡ 0))
unfolding check_route
check_route_lengths providers rule = elim (Bool-cases (matches_restricted rule.when)) [
  | inl e ↦ rw e (ground arith)
  | inr e ↦ rw e (ground arith)
]

check_route_iff :
    (providers : Dict RoutingProviderConfig) (rule : RoutingRule)
    → (check_route providers rule ≡ ok tt) ↔ IsRouteSafe providers rule
check_route_iff providers rule =
    let (to, from) = check_route_lengths providers rule in
    let (k, k') = length-filter_zero (unknown providers) rule.route in
    let (e, e') = length-filter_zero (is_external providers) rule.route in
    (
      λ h. record {
        known = All-map_lem (λ name. not-true _) rule.route (k (to h).0);
        private = λ m. e ((to h).1 ((matches_restricted_iff rule.when).1 m));
      },
      λ s. from (
        k' (All-map_lem (λ name. not-false _) rule.route s.known),
        λ m. e' (s.private ((matches_restricted_iff rule.when).0 m)),
      ),
    )

-- A policy passes the route validator exactly when every rule's route names only providers of the
-- policy, and no external one if the rule lists no data classes or lists the restricted one.
pub routes_validator_iff :
    (p : RoutingPolicy)
    → (routes_are_known_and_restricted_is_private p ≡ ok tt) ↔ All (IsRouteSafe p.providers) p.rules
unfolding routes_are_known_and_restricted_is_private
routes_validator_iff p =
    let (to, from) = check_all_iff (check_route p.providers) p.rules in
    (
      λ h. All-map_lem (λ r. (check_route_iff p.providers r).0) p.rules (to h),
      λ h. from (All-map_lem (λ r. (check_route_iff p.providers r).1) p.rules h),
    )
