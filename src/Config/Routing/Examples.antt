-- ===== src/Config/Routing/Examples.antt =====
-- config/schema.py, RoutingPolicy: the validators on two policies.
use ai_inference_cost_optimi.Prelude.{[], ◌∷◌, ◌≡◌, refl, ◌↔◌, All}
use ai_inference_cost_optimi.Prelude.Result.{ok, err, check_all}
use ai_inference_cost_optimi.Config.Routing.{
  restricted_routed_externally, validate_policy, managed_route_fields, rule_fields,
  allowed_fallback_error, fallback_fields, deadline_covers_each_timeout, is_workload_char,
  all_workload_chars, is_workload_identifier, check_workload, named_workloads,
  workload_identifiers_are_bounded, check_route, routes_are_known_and_restricted_is_private,
}
use ai_inference_cost_optimi.Config.Routing.Restricted.{IsRouteSafe, routes_validator_iff}
use ai_inference_cost_optimi.Config.Routing.Validated.{IsSoundPolicy, validate_policy-IsSound}
use ai_inference_cost_optimi.Config.Routing.Samples.{sample_policy, mixed_policy}

sample_policy_valid : validate_policy sample_policy ≡ ok sample_policy
unfolding validate_policy managed_route_fields rule_fields allowed_fallback_error fallback_fields
    deadline_covers_each_timeout is_workload_char all_workload_chars is_workload_identifier
    check_workload named_workloads workload_identifiers_are_bounded check_route
    routes_are_known_and_restricted_is_private check_all
sample_policy_valid = refl

mixed_policy_refused :
    validate_policy mixed_policy ≡ err (restricted_routed_externally "all" ("cloud" ∷ []))
unfolding validate_policy managed_route_fields rule_fields allowed_fallback_error fallback_fields
    deadline_covers_each_timeout is_workload_char all_workload_chars is_workload_identifier
    check_workload named_workloads workload_identifiers_are_bounded check_route
    routes_are_known_and_restricted_is_private check_all
mixed_policy_refused = refl

validate_policy-IsSound_example : (sample_policy ≡ sample_policy) × IsSoundPolicy sample_policy
validate_policy-IsSound_example =
    validate_policy-IsSound sample_policy sample_policy sample_policy_valid

-- The same, for the tests of the router.
pub sample_policy-IsSound : IsSoundPolicy sample_policy
sample_policy-IsSound = (validate_policy-IsSound sample_policy sample_policy sample_policy_valid).1

routes_validator_iff_example :
    (routes_are_known_and_restricted_is_private mixed_policy ≡ ok tt)
    ↔ All (IsRouteSafe mixed_policy.providers) mixed_policy.rules
routes_validator_iff_example = routes_validator_iff mixed_policy
