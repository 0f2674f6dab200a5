-- ===== src/Adapters/Mock/Examples.antt =====
-- adapters/mock.py: a script of a rate limit and a delay, before a default that breaks its streams.
use ai_inference_cost_optimi.Prelude.{◌≡◌, refl, true, [], ◌∷◌}
use ai_inference_cost_optimi.Prelude.Result.{err}
use ai_inference_cost_optimi.Decimal.{decimal, whole}
use ai_inference_cost_optimi.Adapters.Mock.{
  MockBehaviorKind, rate_limited_429, delayed, stream_ok, stream_fail_after_first_chunk,
  MockBehavior, delay_only_for_delayed, post_init, MockProviderAdapter, next_behavior,
  mock_adapters,
}
use ai_inference_cost_optimi.Adapters.Mock.Contract.{Contract, mock_adapters-Contract}

abbrev plain : MockBehaviorKind → MockBehavior
plain kind = record { kind = kind; delay_ms = 0; retry_after_seconds = 1_000_000 }

abbrev slow : MockBehavior
slow = record { kind = delayed; delay_ms = 250; retry_after_seconds = 1_000_000 }

abbrev scripted : MockProviderAdapter
scripted = record {
  default_behavior = plain stream_fail_after_first_chunk;
  script = plain rate_limited_429 ∷ slow ∷ [];
  include_usage = true;
  timeout_seconds = 3_600_000_000;
  input_price_per_1m = decimal 125 100;
  output_price_per_1m = whole 10;
}

mock_adapters-Contract_example : Contract (mock_adapters "cloud" scripted)
mock_adapters-Contract_example = mock_adapters-Contract "cloud" scripted

-- The third call has used up the script.
third_is_default :
    (next_behavior (next_behavior (next_behavior scripted).1).1).0
    ≡ plain stream_fail_after_first_chunk
unfolding next_behavior
third_is_default = refl

no_delay_here : post_init (record slow { kind = stream_ok }) ≡ err delay_only_for_delayed
unfolding post_init
no_delay_here = refl
