-- ===== src/Routing/Stream/Permitted.antt =====
-- routing/fallback.py: restricted data is streamed to no external adapter.
use mathlib.Core.Path.{fun_ext}
use ai_inference_cost_optimi.Prelude.{
  ℕ, suc, String, ◌≡◌, refl, subst, inl, inr, true, List, [], ◌∷◌, All,
}
use ai_inference_cost_optimi.Prelude.Result.{ok, at_ok, Result-cases}
use ai_inference_cost_optimi.Models.Enums.{restricted}
use ai_inference_cost_optimi.Models.Errors.{AttemptOutcome}
use ai_inference_cost_optimi.Models.Domain.{CanonicalChatRequest, ProviderChunk, RequestContext}
use ai_inference_cost_optimi.Config.Routing.{RoutingPolicy}
use ai_inference_cost_optimi.Adapters.{Adapters, Live}
use ai_inference_cost_optimi.Routing.Policy.{RouteDecision}
use ai_inference_cost_optimi.Routing.Policy.Selection.{Private}
use ai_inference_cost_optimi.Routing.Fallback.{permitted_providers}
use ai_inference_cost_optimi.Routing.Fallback.Permitted.{Agree, permitted-Private}
use ai_inference_cost_optimi.Routing.Stream.{stream_attempt, stream_from, stream}

module _ {W : Type 0} (P : String → Type 0) (pace : ProviderChunk → ℕ) (a b : Adapters W)
    (agree : Agree P a b) (policy : RoutingPolicy) (request : CanonicalChatRequest)
    (ctx : RequestContext) where
  stream_attempt-Agree :
      (name : String) (s : Live W)
      → P name
      → stream_attempt pace a policy request ctx name s
        ≡ stream_attempt pace b policy request ctx name s
  unfolding stream_attempt
  stream_attempt-Agree name s h = rw (agree.stream name request ctx s.world h)

  -- The loop opens no stream but those of its providers.
  stream_from-Agree :
      (index : ℕ) (names : List String) (start : List AttemptOutcome) (s : Live W)
      → All P names
      → stream_from pace a policy request ctx index names start s
        ≡ stream_from pace b policy request ctx index names start s
  unfolding stream_from
  stream_from-Agree index [] start s h = refl
  stream_from-Agree index (name ∷ rest) start s h =
      let next : stream_from pace a policy request ctx (suc index) rest
          ≡ stream_from pace b policy request ctx (suc index) rest =
        fun_ext (λ log. fun_ext (λ s'. stream_from-Agree (suc index) rest log s' h.1)) in
      rw (agree.known name h.0, stream_attempt-Agree name s h.0, next)

-- Under `never_cross_data_policy` a stream on restricted data is the same, chunks, outcome, log, time
-- and world, whatever the adapters of external or unknown providers do: none of them is opened.
pub stream_restricted-Agree :
    {W : Type 0} (pace : ProviderChunk → ℕ) (a b : Adapters W) (policy : RoutingPolicy)
    (request : CanonicalChatRequest) (ctx : RequestContext) (d : RouteDecision) (s : Live W)
    → policy.fallback.never_cross_data_policy ≡ true
    → request.metadata.data_class ≡ restricted
    → Agree (Private policy.providers) a b
    → stream pace a policy request ctx d s ≡ stream pace b policy request ctx d s
unfolding stream
stream_restricted-Agree pace a b policy request ctx d s never c agree =
    elim (Result-cases (permitted_providers policy d request.metadata.data_class)) [
      | inl (names, e) ↦
          rw (e, stream)
            (stream_from-Agree (Private policy.providers) pace a b agree policy request ctx 0 names
              [] s
              (at_ok _ _ (permitted-Private policy d never)
                (subst (λ k. permitted_providers policy d k ≡ ok names) c e)))
      | inr (f, e) ↦ rw (e, stream)
    ]
