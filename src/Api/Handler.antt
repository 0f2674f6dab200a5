-- ===== src/Api/Handler.antt =====
-- api/routes.py: the endpoint /v1/chat/completions, from the headers to the response.
pub mod Guards
pub mod Privacy
mod Examples
use ai_inference_cost_optimi.Prelude.{
  ℕ, ◌+◌, ◌-◌, ◌/◌, String, Bool, true, false, not, Option, none, some, List, [], ◌∷◌, ◌++◌,
  if◌then◌else◌,
}
use ai_inference_cost_optimi.Prelude.Equality.{◌==◌, string_eq, elem}
use ai_inference_cost_optimi.Prelude.Text.{codes, take_text, after_prefix}
use ai_inference_cost_optimi.Prelude.Result.{Result, ok, err, ◌>>=◌, ◌>>◌, raise_if}
use ai_inference_cost_optimi.Models.Enums.{DataClass, QualityTier, parse_class, parse_tier}
use ai_inference_cost_optimi.Models.Domain.{CanonicalChatRequest, ProviderChunk, RequestContext}
use ai_inference_cost_optimi.Config.Routing.{RoutingPolicy}
use ai_inference_cost_optimi.Adapters.{Adapters, Live}
use ai_inference_cost_optimi.Security.Auth.{
  AuthConfig, AuthenticatedTeam, AuthError, missing_bearer_key, unknown_api_key,
  team_assertion_mismatch, authenticate,
}
use ai_inference_cost_optimi.Routing.Policy.{
  RouteDecision, RouteError, no_permitted_provider, no_rule_matches, key_error, select_route,
}
use ai_inference_cost_optimi.Api.Schemas.{
  ChatCompletionRequest, RequestError, validate_request, to_canonical, filled,
}
use ai_inference_cost_optimi.Api.Record.{
  Labels, Entry, requests_total, routing_decision, policy_denied, access,
}
use ai_inference_cost_optimi.Api.Response.{Response, refusal, no_headers, crash}
use ai_inference_cost_optimi.Api.Respond.{Routed, Handled, non_streamed, streamed}

-- `await request.json()`, and whether its value has the shape of the schema.
pub data JsonBody : Type 0 where
  not_json : JsonBody
  other_shape : JsonBody
  shaped : ChatCompletionRequest → JsonBody

pub record HttpRequest : Type 0 where
  pub authorization : Option String
  pub x_gateway_team : Option String
  pub x_gateway_workload : Option String
  pub x_gateway_data_class : Option String
  pub x_gateway_quality_tier : Option String
  pub x_gateway_request_id : Option String
  pub body : JsonBody

-- GatewayState, with the digest function and the next identifier of `uuid4`.
pub record Gateway (W : Type 0) : Type 0 where
  pub hash_api_key : String → String
  pub fresh_id : String
  pub auth : AuthConfig
  pub routing : RoutingPolicy
  pub adapters : Adapters W
  pub model_aliases : List String
  pub pace : ProviderChunk → ℕ

-- `_error_response`
abbrev pub refuse : ℕ → String → Response
refuse status code = record { status = status; headers = no_headers; body = refusal code }

-- The bearer key of the Authorization header.
pub bearer_of : Option String → Option String
bearer_of none = none
bearer_of (some authorization) = after_prefix (codes "bearer ") authorization

-- The two handlers of the exceptions of `authenticate`.
pub identify : Result AuthError AuthenticatedTeam → Result Response String
identify (ok identity) = ok identity.team
identify (err (team_assertion_mismatch asserted team)) = err (refuse 403 "team_mismatch")
identify (err _) = err (refuse 401 "auth_failed")

pub parse_metadata : Option String → Option String → Result Response (DataClass × QualityTier)
parse_metadata (some c) (some t) = elim (parse_class c) [
  | none ↦ err (refuse 422 "invalid_metadata")
  | some data_class ↦ elim (parse_tier t) [
    | none ↦ err (refuse 422 "invalid_metadata")
    | some quality_tier ↦ ok (data_class, quality_tier)
  ]
]
parse_metadata _ _ = err (refuse 422 "missing_metadata")

abbrev pub or_refuse : {A : Type 0} → Result RequestError A → Result Response A
or_refuse (ok a) = ok a
or_refuse (err e) = err (refuse 400 "invalid_request")

pub parse_body :
    JsonBody → String → DataClass → QualityTier → String → Result Response CanonicalChatRequest
parse_body not_json workload data_class quality_tier request_id = err (refuse 400 "invalid_json")
parse_body other_shape workload data_class quality_tier request_id =
    err (refuse 400 "invalid_request")
parse_body (shaped wire) workload data_class quality_tier request_id = do
  valid ← or_refuse (validate_request wire)
  or_refuse (to_canonical valid workload data_class quality_tier request_id)

-- A request that passed every check before routing.
pub record Admitted : Type 0 where
  pub team : String
  pub workload : String
  pub data_class : DataClass
  pub quality_tier : QualityTier
  pub canonical : CanonicalChatRequest

module _ {W : Type 0} (g : Gateway W) where
  pub request_id_of : HttpRequest → String
  request_id_of q = take_text 64 (filled q.x_gateway_request_id g.fresh_id)

  -- The checks, in their order; each has its response.
  pub admit : HttpRequest → Result Response Admitted
  admit q = do
    team ←
        identify (authenticate g.hash_api_key g.auth (bearer_of q.authorization) q.x_gateway_team)
    let workload = filled q.x_gateway_workload "generic"
    raise_if (not (elem workload g.routing.workloads)) (refuse 422 "invalid_workload")
    classes ← parse_metadata q.x_gateway_data_class q.x_gateway_quality_tier
    canonical ← parse_body q.body workload classes.0 classes.1 (request_id_of q)
    ok (record {
      team = team;
      workload = workload;
      data_class = classes.0;
      quality_tier = classes.1;
      canonical = canonical;
    })

  -- `wire.model if wire.model in state.model_aliases else "other"`
  pub labels_of : Admitted → Labels
  labels_of a = record {
    model_alias = if elem a.canonical.model g.model_aliases then a.canonical.model else "other";
    team = a.team;
    workload = a.workload;
  }

  -- A PolicyDenied of the router.
  pub denied : Admitted → Live W → Handled W
  denied a s = record {
    response = refuse 403 "policy_denied";
    entries =
        policy_denied
        ∷ requests_total "none" (labels_of a) "policy_denied"
        ∷ access "policy_denied" none none 0 0
        ∷ [];
    live = s;
  }

  -- The call of the handler for whole or for streamed responses.
  pub dispatch : HttpRequest → Admitted → RouteDecision → Live W → Handled W
  dispatch q a decision s =
      let routed : Routed = record {
        canonical = a.canonical;
        ctx = record {
          request_id = request_id_of q;
          started_at = s.now;
          deadline_at = s.now + g.routing.timeouts.global_request_deadline;
        };
        decision = decision;
        model_alias = a.canonical.model;
        labels = labels_of a;
        request_id = request_id_of q;
        created_epoch = s.now / 1_000_000;
        started = s.now;
      } in
      let handled =
        if a.canonical.stream
        then streamed g.adapters g.pace g.routing routed s
        else non_streamed g.adapters g.routing routed s in
      record handled { entries = routing_decision decision.rule_name ∷ handled.entries }

  pub route : HttpRequest → Admitted → Live W → Handled W
  route q a s = elim (select_route g.routing a.data_class a.workload a.quality_tier) [
    | ok decision ↦ dispatch q a decision s
    | err e ↦ elim e [
      | no_permitted_provider rule ↦ denied a s
      | no_rule_matches ↦ denied a s
      | key_error name ↦ record { response = crash; entries = []; live = s }
    ]
  ]

  -- `chat_completions`
  pub chat_completions : HttpRequest → Live W → Handled W
  chat_completions q s = elim (admit q) [
    | err response ↦ record { response = response; entries = []; live = s }
    | ok a ↦ route q a s
  ]
