-- ===== src/Config/Routing/Validated.antt =====
-- config/schema.py: everything that `RoutingPolicy.model_validate` has checked.
use ai_inference_cost_optimi.Prelude.{
  ◌≤◌, ◌<◌, ◌≡◌, ◌≢◌, ap, ◌↔◌, ◌⊎◌, true, not, [], arith, length, filter, All, All-map_lem,
  length-filter_zero, not-true,
}
use ai_inference_cost_optimi.Prelude.Equality.{string_eq, elem}
use ai_inference_cost_optimi.Prelude.Result.{ok, check_all, check_all_iff}
use ai_inference_cost_optimi.Models.Enums.{ErrorClass, timeout, rate_limited, provider_5xx}
use ai_inference_cost_optimi.Config.Routing.{
  RoutingRule, FallbackConfig, TimeoutConfig, RoutingPolicy, rule_fields, allowed_fallback_error,
  fallback_fields, deadline_covers_each_timeout, named_workloads, workload_identifiers_are_bounded,
  routes_are_known_and_restricted_is_private, validate_policy,
}
use ai_inference_cost_optimi.Config.Routing.Restricted.{IsRouteSafe, routes_validator_iff}

-- Every timeout is positive and fits in the deadline of the request.
pub record IsCovered (t : TimeoutConfig) : Type 0 where
  pub connect : (0 < t.connect_timeout) × (t.connect_timeout ≤ t.global_request_deadline)
  pub header :
      (0 < t.response_header_timeout) × (t.response_header_timeout ≤ t.global_request_deadline)
  pub idle : (0 < t.stream_idle_timeout) × (t.stream_idle_timeout ≤ t.global_request_deadline)
  pub attempt : (0 < t.per_attempt_timeout) × (t.per_attempt_timeout ≤ t.global_request_deadline)

-- The timeouts pass their validator exactly when they are positive and covered by the deadline.
pub deadline_covers_iff :
    (t : TimeoutConfig) → (deadline_covers_each_timeout t ≡ ok tt) ↔ IsCovered t
unfolding deadline_covers_each_timeout
deadline_covers_iff t = ground arith

-- Fallback follows only errors of a provider that may pass.
abbrev pub Transient : ErrorClass → Type 0
Transient c = (c ≡ timeout) ⊎ (c ≡ rate_limited) ⊎ (c ≡ provider_5xx)

allowed-Transient : (c : ErrorClass) → allowed_fallback_error c ≡ ok tt → Transient c
unfolding allowed_fallback_error
allowed-Transient c h = ground arith

pub record IsBounded (f : FallbackConfig) : Type 0 where
  pub transient : All Transient f.on
  pub some_class : f.on ≢ []
  pub some_attempt : 0 < f.max_attempts

fallback_lengths :
    (f : FallbackConfig)
    → fallback_fields f ≡ ok tt
    → (check_all allowed_fallback_error f.on ≡ ok tt) × (0 < length f.on) × (0 < f.max_attempts)
unfolding fallback_fields
fallback_lengths f h = ground arith

fallback_fields-IsBounded : (f : FallbackConfig) → fallback_fields f ≡ ok tt → IsBounded f
fallback_fields-IsBounded f h =
    let (allowed, on, attempts) = fallback_lengths f h in
    record {
      transient =
          All-map_lem allowed-Transient f.on
            ((check_all_iff allowed_fallback_error f.on).0 allowed);
      some_class = λ e. absurd (omega (arith, ap length e));
      some_attempt = attempts;
    }

rule_fields-ne-nil : (r : RoutingRule) → rule_fields r ≡ ok tt → r.route ≢ []
unfolding rule_fields
rule_fields-ne-nil r h e = ground (arith, ap length e)

workloads_length :
    (p : RoutingPolicy)
    → workload_identifiers_are_bounded p ≡ ok tt
    → length (filter (λ w. not (elem w p.workloads)) (named_workloads p.rules)) ≡ 0
unfolding workload_identifiers_are_bounded
workloads_length p h = ground arith

pub record IsSoundPolicy (p : RoutingPolicy) : Type 0 where
  pub safe : All (IsRouteSafe p.providers) p.rules
  pub routed : All (λ r. r.route ≢ []) p.rules
  pub bounded : IsBounded p.fallback
  pub covered : IsCovered p.timeouts
  pub allowed : All (λ w. elem w p.workloads ≡ true) (named_workloads p.rules)

-- The checks that a validated policy has passed.
validate_policy_steps :
    (p q : RoutingPolicy)
    → validate_policy p ≡ ok q
    → (q ≡ p)
      × (check_all rule_fields p.rules ≡ ok tt)
      × (fallback_fields p.fallback ≡ ok tt)
      × (deadline_covers_each_timeout p.timeouts ≡ ok tt)
      × (workload_identifiers_are_bounded p ≡ ok tt)
      × (routes_are_known_and_restricted_is_private p ≡ ok tt)
unfolding validate_policy
validate_policy_steps p q h = ground arith

-- A policy that validation accepts is returned as it was given, and is sound.
pub validate_policy-IsSound :
    (p q : RoutingPolicy) → validate_policy p ≡ ok q → (q ≡ p) × IsSoundPolicy p
validate_policy-IsSound p q h =
    let (same, rules, fallback, timeouts, workloads, routes) = validate_policy_steps p q h in
    let known = length-filter_zero (λ w. not (elem w p.workloads)) (named_workloads p.rules) in
    (
      same,
      record {
        safe = (routes_validator_iff p).0 routes;
        routed =
            All-map_lem rule_fields-ne-nil p.rules ((check_all_iff rule_fields p.rules).0 rules);
        bounded = fallback_fields-IsBounded p.fallback fallback;
        covered = (deadline_covers_iff p.timeouts).0 timeouts;
        allowed = All-map_lem (λ w. not-true _) _ (known.0 (workloads_length p workloads));
      },
    )
