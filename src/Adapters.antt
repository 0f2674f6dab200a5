-- ===== src/Adapters.antt =====
-- adapters/base.py: the contract of a provider adapter, as the gateway sees it, and the clock.
-- An adapter is code behind the network: what it answers, and when, is a parameter. Its state is a
-- type of its own, so that one call may depend on those before it. A stream is finite.
pub mod Anthropic
pub mod Mock
pub mod OpenaiCompat
use ai_inference_cost_optimi.Prelude.{ℕ, String, Bool, Option, ltb, if◌then◌else◌}
use ai_inference_cost_optimi.Models.Errors.{NormalizedError}
use ai_inference_cost_optimi.Models.Domain.{
  CanonicalChatRequest, NormalizedUsage, ProviderResult, ProviderChunk, RequestContext, Money,
}

-- How an awaited call ends: a value, a ProviderError, the builtin TimeoutError, or any other
-- exception.
pub data Answer (A : Type 0) : Type 0 where
  returned : A → Answer A
  raised : NormalizedError → Answer A
  timed_out : Answer A
  crashed : Answer A

-- When it ends, if it does.
pub data Call (A : Type 0) : Type 0 where
  after : ℕ → Answer A → Call A
  hangs : Call A

-- The chunks of a stream, each with the time that `anext` waits for it, and how the stream ends:
-- by StopAsyncIteration (`returned tt`), by an exception, or never.
pub data Feed : Type 0 where
  ends : Call (Unit {0}) → Feed
  yields : ℕ → ProviderChunk → Feed → Feed

pub record Adapters (W : Type 0) : Type 0 where
  -- `name in adapters`
  pub known : String → Bool
  pub chat : String → CanonicalChatRequest → RequestContext → W → Call ProviderResult × W
  pub stream : String → CanonicalChatRequest → RequestContext → W → Feed × W
  pub price : String → NormalizedUsage → String → Option Money

-- The time (in microseconds) and the state of the adapters. Time passes in awaited calls.
pub record Live (W : Type 0) : Type 0 where
  pub now : ℕ
  pub world : W

-- `async with asyncio.timeout(budget)`: the call ends within the budget, or is cut off at it.
unfoldable pub abide : {A : Type 0} → ℕ → Call A → Answer A × ℕ
abide budget hangs = (timed_out, budget)
abide budget (after took answer) = if ltb took budget then (answer, took) else (timed_out, budget)
