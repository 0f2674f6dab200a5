-- ===== src/Config/Routing.antt =====
-- config/schema.py, from RoutingProviderConfig to RoutingPolicy. Pydantic reports every field error
-- of a document at once; here a validator returns its first. Durations are microseconds.
pub mod Restricted
pub mod Validated
pub mod Samples
pub mod Examples
use ai_inference_cost_optimi.Prelude.{
  ℕ, String, Bool, true, false, not, ◌&&◌, ◌||◌, Option, none, some, List, [], ◌∷◌, ◌++◌, ltb, leb,
  eqb, if◌then◌else◌, length, filter, present,
}
use ai_inference_cost_optimi.Prelude.Equality.{◌==◌, string_eq, elem}
use ai_inference_cost_optimi.Prelude.Dict.{Dict, get, keys}
use ai_inference_cost_optimi.Prelude.Text.{codes, blank, is_lower, is_digit}
use ai_inference_cost_optimi.Prelude.Result.{Result, ok, err, ◌>>=◌, ◌>>◌, raise_if, check_all}
use ai_inference_cost_optimi.Models.Enums.{
  DataClass, restricted, QualityTier, ErrorClass, timeout, rate_limited, provider_5xx, class_eq,
}

pub data RouteKind : Type 0 where
  openai_compatible managed : RouteKind

pub record RoutingProviderConfig : Type 0 where
  pub type : RouteKind
  pub external : Bool
  pub provider : Option String
  pub model_alias : Option String

pub record RuleMatch : Type 0 where
  pub data_class : Option (List DataClass)
  pub workload : Option (List String)
  pub quality_tier : Option (List QualityTier)

pub record RoutingRule : Type 0 where
  pub name : String
  pub when : RuleMatch
  pub route : List String

pub record FallbackConfig : Type 0 where
  pub on : List ErrorClass
  pub max_attempts : ℕ
  pub never_cross_data_policy : Bool

pub record TimeoutConfig : Type 0 where
  pub connect_timeout : ℕ
  pub response_header_timeout : ℕ
  pub stream_idle_timeout : ℕ
  pub per_attempt_timeout : ℕ
  pub global_request_deadline : ℕ

pub record RoutingPolicy : Type 0 where
  pub providers : Dict RoutingProviderConfig
  pub rules : List RoutingRule
  pub fallback : FallbackConfig
  pub timeouts : TimeoutConfig
  pub workloads : List String

pub data PolicyError : Type 0 where
  field_constraint : String → PolicyError
  managed_needs_provider_and_alias : String → PolicyError
  timeout_exceeds_deadline : String → PolicyError
  invalid_workload : String → PolicyError
  workloads_not_allowed : List String → PolicyError
  unknown_providers : String → List String → PolicyError
  restricted_routed_externally : String → List String → PolicyError

managed_route_fields : String × RoutingProviderConfig → Result PolicyError Unit
managed_route_fields (name, p) = elim p.type [
  | openai_compatible ↦ ok tt
  | managed ↦
      raise_if (blank p.provider || blank p.model_alias) (managed_needs_provider_and_alias name)
]

rule_fields : RoutingRule → Result PolicyError Unit
rule_fields r = do
  raise_if (r.name == "") (field_constraint "name")
  raise_if (eqb (length r.route) 0) (field_constraint "route")

-- `AllowedFallbackError`
allowed_fallback_error : ErrorClass → Result PolicyError Unit
allowed_fallback_error timeout = ok tt
allowed_fallback_error rate_limited = ok tt
allowed_fallback_error provider_5xx = ok tt
allowed_fallback_error _ = err (field_constraint "on")

fallback_fields : FallbackConfig → Result PolicyError Unit
fallback_fields f = do
  check_all allowed_fallback_error f.on
  raise_if (eqb (length f.on) 0) (field_constraint "on")
  raise_if (eqb f.max_attempts 0) (field_constraint "max_attempts")

-- The fields are PositiveFloat, and the model validator holds each to the deadline in turn.
pub deadline_covers_each_timeout : TimeoutConfig → Result PolicyError Unit
deadline_covers_each_timeout t = do
  raise_if (eqb t.connect_timeout 0) (field_constraint "connect_timeout")
  raise_if (eqb t.response_header_timeout 0) (field_constraint "response_header_timeout")
  raise_if (eqb t.stream_idle_timeout 0) (field_constraint "stream_idle_timeout")
  raise_if (eqb t.per_attempt_timeout 0) (field_constraint "per_attempt_timeout")
  raise_if (eqb t.global_request_deadline 0) (field_constraint "global_request_deadline")
  raise_if (ltb t.global_request_deadline t.connect_timeout)
      (timeout_exceeds_deadline "connect_timeout")
  raise_if (ltb t.global_request_deadline t.response_header_timeout)
      (timeout_exceeds_deadline "response_header_timeout")
  raise_if (ltb t.global_request_deadline t.stream_idle_timeout)
      (timeout_exceeds_deadline "stream_idle_timeout")
  raise_if (ltb t.global_request_deadline t.per_attempt_timeout)
      (timeout_exceeds_deadline "per_attempt_timeout")

-- `[a-z0-9][a-z0-9-]{0,31}`
is_workload_char : ℕ → Bool
is_workload_char c = is_lower c || is_digit c || eqb c b'-'

all_workload_chars : List ℕ → Bool
all_workload_chars [] = true
all_workload_chars (c ∷ cs) = is_workload_char c && all_workload_chars cs

is_workload_identifier : List ℕ → Bool
unfolding is_workload_char all_workload_chars
is_workload_identifier [] = false
is_workload_identifier (c ∷ cs) =
    (is_lower c || is_digit c) && all_workload_chars cs && leb (length cs) 31

check_workload : String → Result PolicyError Unit
unfolding is_workload_identifier
check_workload w = raise_if (not (is_workload_identifier (codes w))) (invalid_workload w)

pub named_workloads : List RoutingRule → List String
named_workloads [] = []
named_workloads (r ∷ rs) = elim r.when.workload [
  | none ↦ named_workloads rs
  | some ws ↦ ws ++ named_workloads rs
]

pub workload_identifiers_are_bounded : RoutingPolicy → Result PolicyError Unit
workload_identifiers_are_bounded p = do
  check_all check_workload p.workloads
  let unknown = filter (λ w. not (elem w p.workloads)) (named_workloads p.rules)
  raise_if (not (eqb (length unknown) 0)) (workloads_not_allowed unknown)

-- `self.providers[name].external`, for a name that is known.
abbrev pub is_external : Dict RoutingProviderConfig → String → Bool
is_external providers name = elim (get name providers) [ none ↦ false | some p ↦ p.external ]

abbrev pub matches_restricted : RuleMatch → Bool
matches_restricted when = elim when.data_class [ none ↦ true | some cs ↦ elem restricted cs ]

-- One round of the loop over the rules.
check_route : Dict RoutingProviderConfig → RoutingRule → Result PolicyError Unit
check_route providers rule = do
  let unknown = filter (λ name. not (present (get name providers))) rule.route
  raise_if (not (eqb (length unknown) 0)) (unknown_providers rule.name unknown)
  let external = filter (is_external providers) rule.route
  raise_if (matches_restricted rule.when && not (eqb (length external) 0))
      (restricted_routed_externally rule.name external)

pub routes_are_known_and_restricted_is_private : RoutingPolicy → Result PolicyError Unit
routes_are_known_and_restricted_is_private p = check_all (check_route p.providers) p.rules

-- `RoutingPolicy.model_validate`: the fields, then the model validators in their order.
pub validate_policy : RoutingPolicy → Result PolicyError RoutingPolicy
validate_policy p = do
  raise_if (eqb (length p.providers) 0) (field_constraint "providers")
  check_all managed_route_fields p.providers
  raise_if (eqb (length p.rules) 0) (field_constraint "rules")
  check_all rule_fields p.rules
  fallback_fields p.fallback
  deadline_covers_each_timeout p.timeouts
  raise_if (eqb (length p.workloads) 0) (field_constraint "workloads")
  workload_identifiers_are_bounded p
  routes_are_known_and_restricted_is_private p
  ok p
