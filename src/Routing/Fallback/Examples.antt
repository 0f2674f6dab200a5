-- ===== src/Routing/Fallback/Examples.antt =====
-- routing/fallback.py: runs with an overloaded and with a hanging provider.
use ai_inference_cost_optimi.Prelude.{
  ℕ, ◌+◌, ◌≤◌, String, if◌then◌else◌, ◌≡◌, refl, subst, false, inl, inr, [], ◌∷◌, arith, Bool-cases,
}
use ai_inference_cost_optimi.Prelude.Equality.{◌==◌, string_eq}
use ai_inference_cost_optimi.Prelude.Result.{ok}
use ai_inference_cost_optimi.Models.Enums.{public, restricted}
use ai_inference_cost_optimi.Config.Routing.Samples.{sample_policy}
use ai_inference_cost_optimi.Routing.Policy.Selection.{Private}
use ai_inference_cost_optimi.Routing.Fallback.{FallbackResult, permitted_providers, chat}
use ai_inference_cost_optimi.Routing.Fallback.Liveness.{Passes, chat-IsAnswered}
use ai_inference_cost_optimi.Routing.Fallback.Answers.{Traced, chat-Traced}
use ai_inference_cost_optimi.Adapters.{Adapters, Live, after, hangs, returned}
use ai_inference_cost_optimi.Routing.Fallback.Calls.{counting, chat-calls_le}
use ai_inference_cost_optimi.Routing.Fallback.Deadline.{chat-InTime}
use ai_inference_cost_optimi.Routing.Fallback.Permitted.{Agree, chat_restricted-Agree}
use ai_inference_cost_optimi.Routing.Samples.{
  request_on, result_of, sample_ctx, sample_start, sample_adapters, hanging_adapters,
  both_providers,
}

-- The cloud is external, so no private provider has its name.
Private-ne_cloud :
    (name : String) → Private sample_policy.providers name → (name == "cloud") ≡ false
Private-ne_cloud name h = elim (Bool-cases (name == "cloud")) [
  | inr e ↦ e
  | inl e ↦
      absurd (
        external
          (subst (Private sample_policy.providers) ((string_eq.same_iff name "cloud").0 e) h))
]
  where
    external : Private sample_policy.providers "cloud" → ⊥
    external (p, found, private) = cc

-- The two families of adapters differ only in the cloud provider.
pub sample-Agree : Agree (Private sample_policy.providers) sample_adapters hanging_adapters
sample-Agree = record {
  known = λ name h. refl;
  chat = λ name request ctx calls h. rw (Private-ne_cloud name h);
  stream = λ name request ctx calls h. rw (Private-ne_cloud name h);
}

chat_restricted-Agree_example :
    chat sample_adapters sample_policy
      (request_on restricted)
      sample_ctx
      both_providers
      sample_start
    ≡ chat hanging_adapters sample_policy
        (request_on restricted)
        sample_ctx
        both_providers
        sample_start
chat_restricted-Agree_example =
    chat_restricted-Agree sample_policy (request_on restricted) sample_ctx both_providers
      sample_adapters hanging_adapters sample_start refl refl sample-Agree

both_permitted :
    permitted_providers sample_policy both_providers public ≡ ok ("local" ∷ "cloud" ∷ [])
unfolding permitted_providers
both_permitted = refl

chat-Traced_example :
    Traced sample_adapters sample_policy
      (request_on public)
      sample_ctx
      0
      sample_start
      ("local" ∷ "cloud" ∷ [])
      []
      (chat sample_adapters sample_policy
        (request_on public)
        sample_ctx
        both_providers
        sample_start)
chat-Traced_example =
    chat-Traced sample_adapters sample_policy (request_on public) sample_ctx both_providers
      sample_start ("local" ∷ "cloud" ∷ []) both_permitted

chat-InTime_example :
    (chat hanging_adapters sample_policy
      (request_on public)
      sample_ctx
      both_providers
      sample_start).1.now
    ≤ 30_000_000
chat-InTime_example =
    chat-InTime hanging_adapters sample_policy (request_on public) sample_ctx both_providers
      sample_start (omega arith)

abbrev counted_start : Live (ℕ × ℕ)
counted_start = record { now = 0; world = (0, 0) }

chat-calls_le_example :
    (chat
      (counting sample_adapters)
      sample_policy
      (request_on public)
      sample_ctx
      both_providers
      counted_start).1.world.1
    ≤ 2
chat-calls_le_example =
    chat-calls_le sample_adapters sample_policy (request_on public) sample_ctx both_providers
      counted_start

-- The local provider hangs, and any other answers after two seconds.
abbrev steady_adapters : Adapters ℕ
steady_adapters = record sample_adapters {
  chat = λ name request ctx calls.
      ((if name == "local" then hangs else after 2_000_000 (returned (result_of name))), calls + 1);
}

steady_adapters-Passes :
    (name : String) (calls : ℕ)
    → Passes sample_policy (steady_adapters.chat name (request_on public) sample_ctx calls).0
steady_adapters-Passes name calls = elim (Bool-cases (name == "local")) [
  | inl e ↦ rw e tt
  | inr e ↦ rw e tt
]

chat-IsAnswered_example :
    (result : FallbackResult) × ((chat steady_adapters sample_policy
        (request_on public)
        sample_ctx
        both_providers
        sample_start).0
      ≡ ok result)
chat-IsAnswered_example =
    chat-IsAnswered steady_adapters sample_policy (request_on public) sample_ctx refl
      steady_adapters-Passes both_providers sample_start ("local" ∷ "cloud" ∷ []) both_permitted
      (omega arith) (refl, (refl, tt))
      (inr (inl (λ calls. (2_000_000, result_of "cloud", refl, omega arith)))) (omega arith)
