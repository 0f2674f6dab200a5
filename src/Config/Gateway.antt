-- ===== src/Config/Gateway.antt =====
-- config/schema.py, GatewayConfig: the routing policy and the providers fit together.
pub mod Consistent
mod Examples
use ai_inference_cost_optimi.Prelude.{
  String, Bool, true, false, not, ◌&&◌, Option, none, some, List, [], ◌∷◌, if◌then◌else◌, present,
  differ,
}
use ai_inference_cost_optimi.Prelude.Dict.{Dict, get}
use ai_inference_cost_optimi.Prelude.Text.{blank}
use ai_inference_cost_optimi.Prelude.Result.{Result, ok, err, ◌>>=◌, ◌>>◌, raise_if, check_all}
use ai_inference_cost_optimi.Config.Routing.{RoutingProviderConfig, RoutingPolicy}
use ai_inference_cost_optimi.Config.Providers.{ProviderConfig, ProvidersDocument}

pub record GatewayConfig : Type 0 where
  pub providers : ProvidersDocument
  pub routing : RoutingPolicy

pub data GatewayError : Type 0 where
  unknown_provider : String → String → GatewayError
  inconsistent_external : String → GatewayError
  unknown_model : String → String → GatewayError

-- `route.provider or route_name`
pub provider_name_of : String × RoutingProviderConfig → String
provider_name_of (route_name, route) = elim route.provider [
  | none ↦ route_name
  | some name ↦ if blank (some name) then route_name else name
]

-- `if route.model_alias and route.model_alias not in provider.models`
check_model_alias : String → Option String → ProviderConfig → Result GatewayError Unit
check_model_alias route_name none provider = ok tt
check_model_alias route_name (some model) provider =
    raise_if (not (blank (some model)) && not (present (get model provider.models)))
      (unknown_model route_name model)

-- One round of the loop over the routing providers.
check_route_provider : ProvidersDocument → String × RoutingProviderConfig → Result GatewayError Unit
check_route_provider doc (route_name, route) =
    let provider_name = provider_name_of (route_name, route) in
    elim (get provider_name doc.providers) [
      | none ↦ err (unknown_provider route_name provider_name)
      | some provider ↦ do
        raise_if (differ route.external provider.external) (inconsistent_external route_name)
        check_model_alias route_name route.model_alias provider
    ]

pub routing_matches_provider_document : GatewayConfig → Result GatewayError GatewayConfig
routing_matches_provider_document config = do
  check_all (check_route_provider config.providers) config.routing.providers
  ok config
