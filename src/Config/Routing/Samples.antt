-- ===== src/Config/Routing/Samples.antt =====
-- Routing policies for the tests: one that validation accepts, and one that mixes its providers.
use ai_inference_cost_optimi.Prelude.{true, false, none, some, [], ◌∷◌}
use ai_inference_cost_optimi.Prelude.Dict.{Dict}
use ai_inference_cost_optimi.Models.Enums.{
  public, internal, restricted, timeout, rate_limited, provider_5xx,
}
use ai_inference_cost_optimi.Config.Routing.{
  openai_compatible, managed, RoutingProviderConfig, RuleMatch, RoutingRule, TimeoutConfig,
  RoutingPolicy,
}

abbrev pub local_provider : RoutingProviderConfig
local_provider = record {
  type = openai_compatible;
  external = false;
  provider = none;
  model_alias = none;
}

abbrev pub cloud_provider : RoutingProviderConfig
cloud_provider = record {
  type = managed;
  external = true;
  provider = some "anthropic";
  model_alias = some "sonnet";
}

abbrev pub sample_providers : Dict RoutingProviderConfig
sample_providers = ("local", local_provider) ∷ ("cloud", cloud_provider) ∷ []

abbrev pub any_request : RuleMatch
any_request = record { data_class = none; workload = none; quality_tier = none }

abbrev pub sample_timeouts : TimeoutConfig
sample_timeouts = record {
  connect_timeout = 1_000_000;
  response_header_timeout = 5_000_000;
  stream_idle_timeout = 5_000_000;
  per_attempt_timeout = 10_000_000;
  global_request_deadline = 30_000_000;
}

abbrev pub restricted_rule : RoutingRule
restricted_rule = record {
  name = "restricted-local";
  when = record { data_class = some (restricted ∷ []); workload = none; quality_tier = none };
  route = "local" ∷ [];
}

abbrev pub default_rule : RoutingRule
default_rule = record {
  name = "default";
  when = record {
    data_class = some (public ∷ internal ∷ []);
    workload = some ("generic" ∷ []);
    quality_tier = none;
  };
  route = "local" ∷ "cloud" ∷ [];
}

abbrev pub sample_policy : RoutingPolicy
sample_policy = record {
  providers = sample_providers;
  rules = restricted_rule ∷ default_rule ∷ [];
  fallback = record {
    on = timeout ∷ rate_limited ∷ provider_5xx ∷ [];
    max_attempts = 2;
    never_cross_data_policy = true;
  };
  timeouts = sample_timeouts;
  workloads = "generic" ∷ "rag" ∷ [];
}

-- Validation refuses this policy: its one rule routes restricted data to the cloud too.
abbrev pub mixed_policy : RoutingPolicy
mixed_policy = record sample_policy {
  rules = record { name = "all"; when = any_request; route = "cloud" ∷ "local" ∷ [] } ∷ [];
}
