-- ===== src/Routing/Samples.antt =====
-- A request on restricted data, its context, and two families of adapters for the tests.
use ai_inference_cost_optimi.Prelude.{
  ℕ, ◌+◌, String, true, false, ◌||◌, none, some, List, [], ◌∷◌, if◌then◌else◌,
}
use ai_inference_cost_optimi.Prelude.Equality.{◌==◌, string_eq}
use ai_inference_cost_optimi.Models.Enums.{DataClass, balanced, user, provider_5xx}
use ai_inference_cost_optimi.Models.Errors.{NormalizedError}
use ai_inference_cost_optimi.Models.Domain.{
  CanonicalContentPart, CanonicalChatRequest, NormalizedUsage, ProviderResult, ProviderChunk,
  RequestContext, unavailable_usage,
}
use ai_inference_cost_optimi.Adapters.{after, hangs, returned, raised, ends, yields, Adapters, Live}
use ai_inference_cost_optimi.Routing.Policy.{RouteDecision}

abbrev pub hello : List CanonicalContentPart
hello = record { type = "text"; text = some "hello" } ∷ []

abbrev pub request_on : DataClass → CanonicalChatRequest
request_on c = record {
  messages = record { role = user; content = hello; name = none } ∷ [];
  model = "chat";
  temperature = 0;
  max_tokens = 64;
  stream = false;
  metadata = record {
    workload = "generic";
    data_class = c;
    quality_tier = balanced;
    request_id = "r1";
  };
}

abbrev pub sample_ctx : RequestContext
sample_ctx = record { request_id = "r1"; started_at = 0; deadline_at = 30_000_000 }

abbrev pub sample_start : Live ℕ
sample_start = record { now = 0; world = 0 }

abbrev pub overloaded : NormalizedError
overloaded = record {
  error_class = provider_5xx;
  message = "overloaded";
  http_status = some 503;
  retry_eligible = true;
  fallback_eligible = true;
  retry_after_seconds = some 2_000_000;
}

abbrev pub sample_usage : NormalizedUsage
sample_usage = record unavailable_usage {
  billed_input_tokens = some 1000;
  billed_output_tokens = some 200;
}

abbrev pub result_of : String → ProviderResult
result_of name = record {
  provider = name;
  model = "chat";
  output = hello;
  finish_reason = some "stop";
  usage = sample_usage;
}

abbrev pub chunk_of : String → ProviderChunk
chunk_of name = record {
  provider = name;
  model = "chat";
  sequence = 0;
  delta = hello;
  is_final = false;
  finish_reason = none;
  usage = none;
}

-- The local provider is overloaded after a second, and any other answers after two; its stream
-- breaks after the first chunk. The state counts the calls.
abbrev pub sample_adapters : Adapters ℕ
sample_adapters = record {
  known = λ name. name == "local" || name == "cloud";
  chat = λ name request ctx calls. (
    (if name == "local"
        then after 1_000_000 (raised overloaded)
        else after 2_000_000 (returned (result_of name))),
    calls + 1,
  );
  stream = λ name request ctx calls. (
    (if name == "local"
        then ends (after 1_000_000 (raised overloaded))
        else yields 2_000_000 (chunk_of name) (ends (after 1_000_000 (raised overloaded)))),
    calls + 1,
  );
  price = λ name usage model. none;
}

-- The same, but for a cloud provider that hangs.
abbrev pub hanging_adapters : Adapters ℕ
hanging_adapters = record {
  known = sample_adapters.known;
  chat = λ name request ctx calls.
      (if name == "cloud" then (hangs, calls + 7) else sample_adapters.chat name request ctx calls);
  stream = λ name request ctx calls.
      (if name == "cloud"
        then (ends hangs, calls + 7)
        else sample_adapters.stream name request ctx calls);
  price = sample_adapters.price;
}

abbrev pub both_providers : RouteDecision
both_providers = record { rule_name = "default"; primary = "local"; fallbacks = "cloud" ∷ [] }
