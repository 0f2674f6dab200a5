-- ===== src/Adapters/Mock/Contract.antt =====
-- adapters/base.py and adapters/mock.py: what the executor and the gateway rely on in an adapter, and
-- that the scripted adapter keeps it.
use ai_inference_cost_optimi.Prelude.{
  ℕ, suc, String, ◌≡◌, refl, ◌≢◌, Bool, true, false, none, some, inl, inr, Bool-cases,
}
use ai_inference_cost_optimi.Prelude.Result.{ok}
use ai_inference_cost_optimi.Models.Enums.{stream_started_failure}
use ai_inference_cost_optimi.Models.Errors.{
  NormalizedError, normalized_error, normalize_http_error, eligibility,
}
use ai_inference_cost_optimi.Models.Domain.{
  CanonicalChatRequest, RequestContext, NormalizedUsage, validate_sources, ProviderResult,
  ProviderChunk,
}
use ai_inference_cost_optimi.Adapters.{
  returned, raised, timed_out, crashed, Call, after, hangs, Feed, ends, yields, Adapters,
}
use ai_inference_cost_optimi.Adapters.Mock.{
  MockBehaviorKind, ok_kind, rate_limited_429, server_500, timeout_kind, malformed_kind, delayed,
  stream_ok, stream_fail_after_first_chunk, MockBehavior, MockProviderAdapter, next_behavior,
  before_response, fails_late, mock_usage, chat_response, mock_chat, mock_chunk, after_first,
  stream_response, mock_stream, mock_adapters,
}

-- The flags of an error are those of its class.
abbrev IsNormal : NormalizedError → Type 0
IsNormal e = (e.retry_eligible, e.fallback_eligible) ≡ eligibility e.error_class

abbrev IsValid : NormalizedUsage → Type 0
IsValid u = validate_sources u ≡ ok u

-- An answer of the requested model with a valid usage, or a normalized error of before a stream.
abbrev pub IsAnswer : CanonicalChatRequest → Call ProviderResult → Type 0
IsAnswer request (after took (returned r)) = (r.model ≡ request.model) × IsValid r.usage
IsAnswer request (after took (raised e)) = IsNormal e × (e.error_class ≢ stream_started_failure)
IsAnswer request (after took timed_out) = ⊥
IsAnswer request (after took crashed) = ⊥
IsAnswer request hangs = ⊥

-- A stream from chunk number `n` on, with the final chunk still to come or sent.
pub data IsFeed (request : CanonicalChatRequest) : ℕ → Bool → Feed → Type 0 where
  refused :
      {took : ℕ} {e : NormalizedError}
      → IsNormal e
      → e.error_class ≢ stream_started_failure
      → IsFeed request 0 false (ends (after took (raised e)))
  broken :
      {n took : ℕ} {e : NormalizedError}
      → IsNormal e
      → e.error_class ≡ stream_started_failure
      → IsFeed request (suc n) false (ends (after took (raised e)))
  complete : {n took : ℕ} → IsFeed request n true (ends (after took (returned tt)))
  part :
      {n wait : ℕ} {c : ProviderChunk} {rest : Feed}
      → c.sequence ≡ n
      → c.model ≡ request.model
      → c.is_final ≡ false
      → c.usage ≡ none
      → IsFeed request (suc n) false rest
      → IsFeed request n false (yields wait c rest)
  last :
      {n wait : ℕ} {c : ProviderChunk} {rest : Feed} {u : NormalizedUsage}
      → c.sequence ≡ n
      → c.model ≡ request.model
      → c.is_final ≡ true
      → c.usage ≡ some u
      → IsValid u
      → IsFeed request (suc n) true rest
      → IsFeed request n false (yields wait c rest)

-- The contract of an adapter.
pub record Contract {W : Type 0} (adapters : Adapters W) : Type 0 where
  pub answers :
      (name : String) (request : CanonicalChatRequest) (ctx : RequestContext) (w : W)
      → IsAnswer request (adapters.chat name request ctx w).0
  pub feeds :
      (name : String) (request : CanonicalChatRequest) (ctx : RequestContext) (w : W)
      → IsFeed request 0 false (adapters.stream name request ctx w).0

mock_usage-IsValid : (m : MockProviderAdapter) → IsValid (mock_usage m)
unfolding mock_usage validate_sources
mock_usage-IsValid m = elim (Bool-cases m.include_usage) [ inl e ↦ rw e refl | inr e ↦ rw e refl ]

module _ (m : MockProviderAdapter) (request : CanonicalChatRequest) where
  chat_response-IsAnswer :
      (b : MockBehavior) (kind : MockBehaviorKind)
      → b.kind ≡ kind
      → IsAnswer request (chat_response m request b (before_response m b))
  unfolding chat_response before_response normalize_http_error normalized_error
  chat_response-IsAnswer b delayed e = rw e (refl, mock_usage-IsValid m)
  chat_response-IsAnswer b timeout_kind e = rw e (refl, mock_usage-IsValid m)
  chat_response-IsAnswer b rate_limited_429 e = rw e (refl, λ h. cc)
  chat_response-IsAnswer b server_500 e = rw e (refl, λ h. cc)
  chat_response-IsAnswer b malformed_kind e = rw e (refl, λ h. cc)
  chat_response-IsAnswer b ok_kind e = rw e (refl, mock_usage-IsValid m)
  chat_response-IsAnswer b stream_ok e = rw e (refl, mock_usage-IsValid m)
  chat_response-IsAnswer b stream_fail_after_first_chunk e = rw e (refl, λ h. cc)

  -- A stream that does not break: the two chunks of text and the final one.
  first_chunk-IsFeed :
      (wait : ℕ) (b : MockBehavior)
      → fails_late b.kind ≡ false
      → IsFeed request 0 false
          (yields wait (mock_chunk request 0 "mock ") (after_first m request b))
  unfolding mock_chunk after_first
  first_chunk-IsFeed wait b h = rw h (
      part refl refl refl refl
        (part refl refl refl refl (last refl refl refl refl (mock_usage-IsValid m) complete)))

  stream_response-IsFeed :
      (b : MockBehavior) (kind : MockBehaviorKind)
      → b.kind ≡ kind
      → IsFeed request 0 false (stream_response m request b (before_response m b))
  unfolding stream_response before_response after_first mock_chunk normalize_http_error
      normalized_error
  stream_response-IsFeed b delayed e =
      rw e (first_chunk-IsFeed _ (record b { kind = delayed }) refl)
  stream_response-IsFeed b timeout_kind e =
      rw e (first_chunk-IsFeed _ (record b { kind = timeout_kind }) refl)
  stream_response-IsFeed b rate_limited_429 e = rw e (refused refl (λ h. cc))
  stream_response-IsFeed b server_500 e = rw e (refused refl (λ h. cc))
  stream_response-IsFeed b malformed_kind e = rw e (refused refl (λ h. cc))
  stream_response-IsFeed b ok_kind e =
      rw e (first_chunk-IsFeed _ (record b { kind = ok_kind }) refl)
  stream_response-IsFeed b stream_ok e =
      rw e (first_chunk-IsFeed _ (record b { kind = stream_ok }) refl)
  stream_response-IsFeed b stream_fail_after_first_chunk e =
      rw e (part refl refl refl refl (broken refl refl))

-- The scripted adapter keeps the contract: whatever its script is, a call gives an answer of the
-- requested model with a valid usage, or a normalized error of a class of before a stream; a stream
-- is refused like that, or its chunks are numbered from 0 and only the last one is final and has a
-- usage, a valid one, and a failure after the first chunk is a stream_started_failure.
pub mock_adapters-Contract :
    (name : String) (built : MockProviderAdapter) → Contract (mock_adapters name built)
unfolding mock_adapters mock_chat mock_stream
mock_adapters-Contract name built = record {
  answers = λ n request ctx m. chat_response-IsAnswer m request (next_behavior m).0 _ refl;
  feeds = λ n request ctx m. stream_response-IsFeed m request (next_behavior m).0 _ refl;
}
