-- ===== src/Api/Respond/Privacy.antt =====
-- api/routes.py: a response on restricted data depends on no external provider.
use ai_inference_cost_optimi.Prelude.{
  ℕ, String, ◌≡◌, refl, Bool, true, false, not, ◌&&◌, Option, none, some, List, [], ◌∷◌,
  if◌then◌else◌,
}
use ai_inference_cost_optimi.Prelude.Result.{Result, ok, err}
use ai_inference_cost_optimi.Models.Enums.{restricted}
use ai_inference_cost_optimi.Models.Domain.{NormalizedUsage, ProviderChunk}
use ai_inference_cost_optimi.Config.Routing.{RoutingPolicy}
use ai_inference_cost_optimi.Adapters.{Adapters, Live}
use ai_inference_cost_optimi.Routing.Policy.Selection.{Private}
use ai_inference_cost_optimi.Routing.Fallback.{
  Failure, provider_error, missing_provider, missing_adapter, unexpected, FallbackResult,
}
use ai_inference_cost_optimi.Routing.Fallback.Permitted.{Agree, chat_restricted-Agree}
use ai_inference_cost_optimi.Routing.Stream.{StreamRun}
use ai_inference_cost_optimi.Routing.Stream.Permitted.{stream_restricted-Agree}
use ai_inference_cost_optimi.Api.Record.{Labels, result_metrics}
use ai_inference_cost_optimi.Api.Respond.{
  Routed, handled_error, handled_success, respond, non_streamed, item_entries, items_entries,
  streaming, primed, streamed, usage_entries, has_delta,
}
use ai_inference_cost_optimi.Api.Record.Prices.{result_metrics-Agree}

module _ {W : Type 0} (a b : Adapters W) (priced : a.price ≡ b.price) where
  handled_success-Agree :
      (q : Routed) (r : FallbackResult) (s : Live W)
      → handled_success a q r s ≡ handled_success b q r s
  unfolding handled_success
  handled_success-Agree q r s =
      rw (result_metrics-Agree a b priced r.provider q.labels r.result.usage)

  respond-Agree :
      (q : Routed) (outcome : Result Failure FallbackResult) (s : Live W)
      → respond a q outcome s ≡ respond b q outcome s
  unfolding respond handled_error
  respond-Agree q (ok r) s = handled_success-Agree q r s
  respond-Agree q (err (provider_error e)) s = refl
  respond-Agree q (err (missing_provider e)) s = refl
  respond-Agree q (err (missing_adapter name)) s = refl
  respond-Agree q (err unexpected) s = refl

  usage_entries-Agree :
      (provider : String) (l : Labels) (is_final : Bool) (u : Option NormalizedUsage)
      → (if is_final then usage_entries u (result_metrics a provider l) else [])
        ≡ (if is_final then usage_entries u (result_metrics b provider l) else [])
  usage_entries-Agree provider l false u = refl
  usage_entries-Agree provider l true none = refl
  usage_entries-Agree provider l true (some u) = result_metrics-Agree a b priced provider l u

  items_entries-Agree :
      (q : Routed) (first : Bool) (items : List (String × ℕ × ProviderChunk))
      → items_entries a q first items ≡ items_entries b q first items
  unfolding items_entries item_entries
  items_entries-Agree q first [] = refl
  items_entries-Agree q first ((provider, index, c) ∷ items) = rw (
    usage_entries-Agree provider q.labels c.is_final c.usage,
    items_entries-Agree q (first && not (has_delta c)) items,
  )

  streaming-Agree :
      (q : Routed) (run : StreamRun W) (provider : String) (index : ℕ)
      → streaming a q run provider index ≡ streaming b q run provider index
  unfolding streaming
  streaming-Agree q run provider index = rw (items_entries-Agree q true run.items)

  primed-Agree :
      (q : Routed) (run : StreamRun W) (items : List (String × ℕ × ProviderChunk))
      (outcome : Result Failure (Unit {0}))
      → primed a q run items outcome ≡ primed b q run items outcome
  unfolding primed handled_error
  primed-Agree q run ((provider, index, c) ∷ items) outcome = streaming-Agree q run provider index
  primed-Agree q run [] (ok u) = streaming-Agree q run q.decision.primary 0
  primed-Agree q run [] (err (provider_error e)) = refl
  primed-Agree q run [] (err (missing_provider e)) = refl
  primed-Agree q run [] (err (missing_adapter n)) = refl
  primed-Agree q run [] (err unexpected) = refl

-- The conditions of the theorems below: the policy's switch, and two families of adapters that agree
-- on private providers and on prices.
module _ {W : Type 0} (a b : Adapters W) (policy : RoutingPolicy)
    (never : policy.fallback.never_cross_data_policy ≡ true)
    (agree : Agree (Private policy.providers) a b) (priced : a.price ≡ b.price) where
  -- A whole response on restricted data depends on no external provider.
  pub non_streamed-Agree :
      (q : Routed) (s : Live W)
      → q.canonical.metadata.data_class ≡ restricted
      → non_streamed a policy q s ≡ non_streamed b policy q s
  unfolding non_streamed
  non_streamed-Agree q s c =
      rw (chat_restricted-Agree policy q.canonical q.ctx q.decision a b s never c agree)
        (respond-Agree a b priced q _ _)

  -- A streamed response on restricted data depends on no external provider.
  pub streamed-Agree :
      (pace : ProviderChunk → ℕ) (q : Routed) (s : Live W)
      → q.canonical.metadata.data_class ≡ restricted
      → streamed a pace policy q s ≡ streamed b pace policy q s
  unfolding streamed
  streamed-Agree pace q s c =
      rw (stream_restricted-Agree pace a b policy q.canonical q.ctx q.decision s never c agree)
        (primed-Agree a b priced q _ _ _)
