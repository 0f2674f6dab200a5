-- ===== src/Api/Samples.antt =====
-- A gateway over the sample policy, and a request to it, for the tests.
use ai_inference_cost_optimi.Prelude.{ℕ, none, some, [], ◌∷◌}
use ai_inference_cost_optimi.Models.Enums.{restricted, balanced}
use ai_inference_cost_optimi.Config.Routing.Samples.{sample_policy}
use ai_inference_cost_optimi.Routing.Samples.{
  request_on, sample_ctx, sample_adapters, both_providers,
}
use ai_inference_cost_optimi.Api.Schemas.Examples.{sample_wire}
use ai_inference_cost_optimi.Api.Record.{Labels}
use ai_inference_cost_optimi.Api.Respond.{Routed}
use ai_inference_cost_optimi.Api.Handler.{shaped, HttpRequest, Gateway, Admitted}

abbrev pub sample_labels : Labels
sample_labels = record { model_alias = "chat"; team = "search"; workload = "generic" }

abbrev pub sample_routed : Routed
sample_routed = record {
  canonical = request_on restricted;
  ctx = sample_ctx;
  decision = both_providers;
  model_alias = "chat";
  labels = sample_labels;
  request_id = "r1";
  created_epoch = 0;
  started = 0;
}

abbrev pub sample_gateway : Gateway ℕ
sample_gateway = record {
  hash_api_key = λ key. key;
  fresh_id = "f1";
  auth = record { keys = record { sha256 = "k1"; team = "search" } ∷ [] };
  routing = sample_policy;
  adapters = sample_adapters;
  model_aliases = "chat" ∷ [];
  pace = λ c. 0;
}

abbrev pub sample_http : HttpRequest
sample_http = record {
  authorization = some "Bearer k1";
  x_gateway_team = none;
  x_gateway_workload = none;
  x_gateway_data_class = some "restricted";
  x_gateway_quality_tier = some "balanced";
  x_gateway_request_id = some "r1";
  body = shaped sample_wire;
}

abbrev pub sample_admitted : Admitted
sample_admitted = record {
  team = "search";
  workload = "generic";
  data_class = restricted;
  quality_tier = balanced;
  canonical = request_on restricted;
}
