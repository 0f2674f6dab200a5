-- ===== src/Api/Record.antt =====
-- telemetry/metrics.py and the recording helpers of api/routes.py. A registry is the list of what
-- was recorded in it, oldest first, each with its labels; a counter is the sum of its entries.
pub mod Attempts
pub mod Prices
use ai_inference_cost_optimi.Prelude.{
  ℕ, ◌+◌, ◌-◌, String, Bool, true, false, Option, none, some, List, [], ◌∷◌, ◌++◌,
}
use ai_inference_cost_optimi.Decimal.{Decimal}
use ai_inference_cost_optimi.Models.Enums.{ErrorClass, error_value}
use ai_inference_cost_optimi.Models.Errors.{AttemptOutcome, ProviderError}
use ai_inference_cost_optimi.Models.Domain.{NormalizedUsage, Money}
use ai_inference_cost_optimi.Adapters.{Adapters}
use ai_inference_cost_optimi.Routing.Policy.{RouteDecision}

-- The labels of a request that several series share.
pub record Labels : Type 0 where
  pub model_alias : String
  pub team : String
  pub workload : String

pub data Entry : Type 0 where
  -- provider, labels, outcome
  requests_total : String → Labels → String → Entry
  -- provider, workload, seconds; the time to the first content is not modelled
  request_latency : String → String → ℕ → Entry
  ttft : String → String → Entry
  -- provider, model alias, team, amount
  input_tokens : String → String → String → ℕ → Entry
  output_tokens : String → String → String → ℕ → Entry
  managed_cost : String → String → String → Decimal → Entry
  -- route
  routing_decision : String → Entry
  -- from, to, reason
  fallback : String → String → ErrorClass → Entry
  -- provider, class
  provider_errors : String → ErrorClass → Entry
  policy_denied : Entry
  -- the access log: outcome, provider, rule, seconds, fallback count
  access : String → Option String → Option String → ℕ → ℕ → Entry

-- A failed attempt that another one follows is a fallback.
abbrev pub transition : AttemptOutcome → ErrorClass → List AttemptOutcome → List Entry
transition a c [] = []
transition a c (next ∷ rest) = fallback a.provider next.provider c ∷ []

-- `_record_attempt_history`, whose index only asks for the next attempt.
pub attempt_history : List AttemptOutcome → List Entry
attempt_history [] = []
attempt_history (a ∷ rest) =
    let later = attempt_history rest in
    elim a.error_class [
      | none ↦ later
      | some c ↦ provider_errors a.provider c ∷ (transition a c rest ++ later)
    ]

abbrev pub tokens_entry : Option ℕ → (ℕ → Entry) → List Entry
tokens_entry none entry = []
tokens_entry (some n) entry = entry n ∷ []

abbrev pub cost_entry : Option Money → (Decimal → Entry) → List Entry
cost_entry none entry = []
cost_entry (some money) entry = entry money.amount ∷ []

-- `_record_result_metrics`
pub result_metrics : {W : Type 0} → Adapters W → String → Labels → NormalizedUsage → List Entry
result_metrics adapters provider l usage =
    tokens_entry usage.billed_input_tokens (input_tokens provider l.model_alias l.team)
    ++ (tokens_entry usage.billed_output_tokens (output_tokens provider l.model_alias l.team)
        ++ cost_entry (adapters.price provider usage l.model_alias)
            (managed_cost provider l.model_alias l.team))

-- `_error_provider`: the provider of the last attempt, if there was one.
pub last_provider : List AttemptOutcome → String → String
last_provider [] primary = primary
last_provider (a ∷ []) primary = a.provider
last_provider (a ∷ b ∷ rest) primary = last_provider (b ∷ rest) primary

-- `if not error.attempts`
abbrev pub unattempted : List AttemptOutcome → String → ErrorClass → List Entry
unattempted [] provider c = provider_errors provider c ∷ []
unattempted (a ∷ rest) provider c = []

-- `_record_terminal_error`, after `seconds`
pub terminal_error : ProviderError → RouteDecision → Labels → ℕ → List Entry
terminal_error e decision l seconds =
    let provider = last_provider e.attempts decision.primary in
    attempt_history e.attempts
    ++ (unattempted e.attempts provider e.error.error_class
        ++ requests_total provider l (error_value e.error.error_class)
          ∷ access (error_value e.error.error_class) (some provider) (some decision.rule_name)
              seconds 0
          ∷ [])
