-- ===== src/Routing/Stream/Examples.antt =====
-- routing/fallback.py: a stream that breaks after its first chunk.
use ai_inference_cost_optimi.Prelude.{◌≡◌, refl, [], ◌∷◌}
use ai_inference_cost_optimi.Prelude.Result.{ok}
use ai_inference_cost_optimi.Models.Enums.{public, restricted}
use ai_inference_cost_optimi.Config.Routing.Samples.{sample_policy}
use ai_inference_cost_optimi.Routing.Fallback.{permitted_providers}
use ai_inference_cost_optimi.Routing.Stream.{stream}
use ai_inference_cost_optimi.Routing.Stream.Replay.{IsStreamed, stream-IsStreamed}
use ai_inference_cost_optimi.Routing.Stream.Permitted.{stream_restricted-Agree}
use ai_inference_cost_optimi.Routing.Fallback.Examples.{sample-Agree}
use ai_inference_cost_optimi.Routing.Samples.{
  request_on, sample_ctx, sample_start, sample_adapters, hanging_adapters, both_providers,
}

both_streamable :
    permitted_providers sample_policy both_providers public ≡ ok ("local" ∷ "cloud" ∷ [])
unfolding permitted_providers
both_streamable = refl

stream-IsStreamed_example :
    IsStreamed
      (λ c. 0)
      sample_adapters
      sample_policy
      (request_on public)
      sample_ctx
      0
      sample_start
      ("local" ∷ "cloud" ∷ [])
      []
      (stream
        (λ c. 0)
        sample_adapters
        sample_policy
        (request_on public)
        sample_ctx
        both_providers
        sample_start)
stream-IsStreamed_example =
    stream-IsStreamed (λ c. 0) sample_adapters sample_policy (request_on public) sample_ctx
      both_providers sample_start ("local" ∷ "cloud" ∷ []) both_streamable

stream_restricted-Agree_example :
    stream
      (λ c. 0)
      sample_adapters
      sample_policy
      (request_on restricted)
      sample_ctx
      both_providers
      sample_start
    ≡ stream
        (λ c. 0)
        hanging_adapters
        sample_policy
        (request_on restricted)
        sample_ctx
        both_providers
        sample_start
stream_restricted-Agree_example =
    stream_restricted-Agree (λ c. 0) sample_adapters hanging_adapters sample_policy
      (request_on restricted) sample_ctx both_providers sample_start refl refl sample-Agree
