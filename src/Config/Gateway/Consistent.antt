-- ===== src/Config/Gateway/Consistent.antt =====
-- config/schema.py: what holds between the routing policy and the providers of a valid GatewayConfig.
use ai_inference_cost_optimi.Prelude.{String, ◌≡◌, refl, differ, Option, none, some, arith}
use ai_inference_cost_optimi.Prelude.Dict.{get, All-get}
use ai_inference_cost_optimi.Prelude.Result.{ok, err, ◌>>◌, raise_if, check_all_iff}
use ai_inference_cost_optimi.Config.Routing.{RoutingProviderConfig}
use ai_inference_cost_optimi.Config.Providers.{ProviderConfig, ProvidersDocument}
use ai_inference_cost_optimi.Config.Gateway.{
  GatewayConfig, GatewayError, provider_name_of, check_model_alias, check_route_provider,
  routing_matches_provider_document,
}

-- A routing provider stands for a provider of the document with the same external flag.
abbrev pub Backed : ProvidersDocument → String × RoutingProviderConfig → Type 0
Backed doc (route_name, route) =
    (p : ProviderConfig) × (get (provider_name_of (route_name, route)) doc.providers ≡ some p)
    × (route.external ≡ p.external)

check_route_provider-Backed :
    (doc : ProvidersDocument) (route_name : String) (route : RoutingProviderConfig)
    → check_route_provider doc (route_name, route) ≡ ok tt
    → Backed doc (route_name, route)
unfolding check_route_provider
check_route_provider-Backed doc route_name route h =
    go (get (provider_name_of (route_name, route)) doc.providers) refl h
  where
    go :
        (o : Option ProviderConfig)
        → get (provider_name_of (route_name, route)) doc.providers ≡ o
        → elim o [
          | none ↦
              err (GatewayError.unknown_provider route_name (provider_name_of (route_name, route)))
          | some provider ↦
              raise_if
                (differ route.external provider.external)
                (GatewayError.inconsistent_external route_name)
              >> check_model_alias route_name route.model_alias provider
        ]
          ≡ ok tt
        → Backed doc (route_name, route)
    go none e h = cc
    go (some p) e h = (p, e, ground arith)

-- In a configuration that validation accepts, every routing provider is backed by a provider of the
-- document, and is external exactly when that is.
pub routing_matches-Backed :
    (c c' : GatewayConfig) (name : String) (route : RoutingProviderConfig)
    → routing_matches_provider_document c ≡ ok c'
    → get name c.routing.providers ≡ some route
    → Backed c.providers (name, route)
unfolding routing_matches_provider_document
routing_matches-Backed c c' name route h found =
    check_route_provider-Backed c.providers name route (
      All-get (λ item. check_route_provider c.providers item ≡ ok tt) name c.routing.providers
        ((check_all_iff (check_route_provider c.providers) c.routing.providers).0 (ground arith))
        found)
