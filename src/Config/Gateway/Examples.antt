-- ===== src/Config/Gateway/Examples.antt =====
-- config/schema.py, GatewayConfig: the sample policy over the sample document.
use ai_inference_cost_optimi.Prelude.{◌≡◌, refl}
use ai_inference_cost_optimi.Prelude.Result.{ok, check_all}
use ai_inference_cost_optimi.Config.Routing.Samples.{sample_policy, cloud_provider}
use ai_inference_cost_optimi.Config.Providers.Examples.{sample_document}
use ai_inference_cost_optimi.Config.Gateway.{
  GatewayConfig, provider_name_of, check_model_alias, check_route_provider,
  routing_matches_provider_document,
}
use ai_inference_cost_optimi.Config.Gateway.Consistent.{Backed, routing_matches-Backed}

abbrev sample_config : GatewayConfig
sample_config = record { providers = sample_document; routing = sample_policy }

sample_config_valid : routing_matches_provider_document sample_config ≡ ok sample_config
unfolding routing_matches_provider_document check_route_provider check_model_alias provider_name_of
    check_all
sample_config_valid = refl

routing_matches-Backed_example : Backed sample_document ("cloud", cloud_provider)
routing_matches-Backed_example =
    routing_matches-Backed sample_config sample_config "cloud" cloud_provider sample_config_valid
      refl
