-- ===== src/Routing/Policy/Examples.antt =====
-- routing/policy.py: decisions under the two sample policies.
use ai_inference_cost_optimi.Prelude.{◌≡◌, refl, [], All}
use ai_inference_cost_optimi.Prelude.Result.{ok, err}
use ai_inference_cost_optimi.Models.Enums.{public, confidential, restricted, balanced}
use ai_inference_cost_optimi.Config.Routing.Samples.{sample_policy, mixed_policy}
use ai_inference_cost_optimi.Config.Routing.Examples.{sample_policy-IsSound}
use ai_inference_cost_optimi.Routing.Policy.{
  RouteDecision, providers, no_rule_matches, select_route,
}
use ai_inference_cost_optimi.Routing.Policy.Selection.{Private, select_route-Private}
use ai_inference_cost_optimi.Routing.Policy.Validated.{Outcome, select_route-Outcome}

abbrev local_only : RouteDecision
local_only = record { rule_name = "all"; primary = "local"; fallbacks = [] }

-- The runtime filter drops the cloud from a route that validation would have refused.
mixed_restricted : select_route mixed_policy restricted "generic" balanced ≡ ok local_only
unfolding select_route
mixed_restricted = refl

sample_denied : select_route sample_policy confidential "generic" balanced ≡ err no_rule_matches
unfolding select_route
sample_denied = refl

select_route-Private_example : All (Private mixed_policy.providers) (providers local_only)
select_route-Private_example =
    select_route-Private mixed_policy "generic" balanced local_only mixed_restricted

select_route-Outcome_example :
    Outcome sample_policy.providers public "generic" balanced sample_policy.rules
      (select_route sample_policy public "generic" balanced)
select_route-Outcome_example =
    select_route-Outcome sample_policy public "generic" balanced sample_policy-IsSound
