-- ===== src/Adapters/Anthropic/Events.antt =====
-- adapters/anthropic_managed.py: what a stream of the managed adapter yields.
use ai_inference_cost_optimi.Prelude.{
  ℕ, suc, String, ◌≡◌, refl, inl, inr, true, false, Option, none, some, List, [], ◌∷◌,
  if◌then◌else◌, Bool-cases,
}
use ai_inference_cost_optimi.Prelude.Equality.{◌==◌, string_eq}
use ai_inference_cost_optimi.Prelude.Result.{Result, ok}
use ai_inference_cost_optimi.Models.Errors.{NormalizedError, StatusError}
use ai_inference_cost_optimi.Models.Domain.{
  CanonicalContentPart, NormalizedUsage, ProviderChunk, validate_sources,
}
use ai_inference_cost_optimi.Adapters.Anthropic.{
  normalize_error, StreamEvent, message_start, text_delta, message_delta, other_event, StreamEnd,
  exhausted, failed_with, StreamState, Emitted, newer, text_part, text_chunk, final_chunk,
  events_from, stream_start, managed_stream, usage_of_counts,
}

-- What the events say: the texts that are not empty, and the last of each of the other values.
abbrev pub texts : List StreamEvent → List (List CanonicalContentPart)
texts [] = []
texts (text_delta t ∷ events) = if t == "" then texts events else text_part t ∷ texts events
texts (message_start n ∷ events) = texts events
texts (message_delta tokens reason ∷ events) = texts events
texts (other_event ∷ events) = texts events

abbrev pub last_input : Option ℕ → List StreamEvent → Option ℕ
last_input n [] = n
last_input n (message_start m ∷ events) = last_input (some m) events
last_input n (text_delta t ∷ events) = last_input n events
last_input n (message_delta tokens reason ∷ events) = last_input n events
last_input n (other_event ∷ events) = last_input n events

abbrev pub last_output : Option ℕ → List StreamEvent → Option ℕ
last_output n [] = n
last_output n (message_delta tokens reason ∷ events) = last_output (newer tokens n) events
last_output n (message_start m ∷ events) = last_output n events
last_output n (text_delta t ∷ events) = last_output n events
last_output n (other_event ∷ events) = last_output n events

-- Chunks with texts, numbered on from `n`, and what comes after them.
abbrev pub Body :
    ℕ
    → List (List CanonicalContentPart)
    → List ProviderChunk
    → (ℕ → List ProviderChunk → Type 0)
    → Type 0
Body n [] chunks After = After n chunks
Body n (t ∷ ts) [] After = ⊥
Body n (t ∷ ts) (c ∷ chunks) After =
    (c.sequence ≡ n)
    × (c.delta ≡ t)
    × (c.is_final ≡ false)
    × (c.usage ≡ none)
    × Body (suc n) ts chunks After

-- A usage of two counts, each billed as the provider's report if it is there.
pub record Reports (input output : Option ℕ) (u : NormalizedUsage) : Type 0 where
  pub billed_input : u.billed_input_tokens ≡ input
  pub billed_output : u.billed_output_tokens ≡ output
  pub no_visible : u.visible_output_tokens ≡ none
  pub no_reasoning : u.reasoning_or_special_tokens ≡ none
  pub valid : validate_sources u ≡ ok u

-- After the texts: one final chunk with the usage, or nothing.
abbrev pub Closing : Option ℕ → Option ℕ → StreamEnd → ℕ → List ProviderChunk → Type 0
Closing input output exhausted n (c ∷ []) =
    (c.sequence ≡ n)
    × (c.delta ≡ [])
    × (c.is_final ≡ true)
    × ((u : NormalizedUsage) × (c.usage ≡ some u) × Reports input output u)
Closing input output exhausted n _ = ⊥
Closing input output (failed_with e) n chunks = chunks ≡ []

-- How the stream ends.
abbrev pub Ends : StreamEnd → Option (Result StatusError NormalizedError) → Type 0
Ends exhausted error = error ≡ none
Ends (failed_with e) error = error ≡ some (normalize_error e)

-- What a run yields from a state on.
abbrev pub IsEmitted : StreamState → List StreamEvent → StreamEnd → Emitted → Type 0
IsEmitted s events end run =
    Body s.sequence (texts events) run.chunks
      (Closing (last_input s.input_tokens events) (last_output s.output_tokens events) end)
    × Ends end run.error

usage_of_counts_valid :
    (input output : Option ℕ)
    → validate_sources (usage_of_counts input output) ≡ ok (usage_of_counts input output)
unfolding validate_sources usage_of_counts
usage_of_counts_valid none none = refl
usage_of_counts_valid none (some n) = refl
usage_of_counts_valid (some m) none = refl
usage_of_counts_valid (some m) (some n) = refl

usage_of_counts-Reports :
    (input output : Option ℕ) → Reports input output (usage_of_counts input output)
unfolding usage_of_counts
usage_of_counts-Reports input output = record {
  billed_input = refl;
  billed_output = refl;
  no_visible = refl;
  no_reasoning = refl;
  valid = usage_of_counts_valid input output;
}

module _ (name model_name : String) where
  -- A text is skipped, or becomes the next chunk.
  text_IsEmitted :
      (s : StreamState) (t : String) (events : List StreamEvent) (end : StreamEnd)
      → IsEmitted s events end (events_from name model_name s events end)
      → IsEmitted
          (record s { sequence = suc s.sequence })
          events
          end
          (events_from name model_name (record s { sequence = suc s.sequence }) events end)
      → IsEmitted s
          (text_delta t ∷ events)
          end
          (events_from name model_name s (text_delta t ∷ events) end)
  unfolding events_from text_chunk
  text_IsEmitted s t events end silent next = elim (Bool-cases (t == "")) [
    | inl e ↦ rw e silent
    | inr e ↦ rw e ((refl, refl, refl, refl, next.0), next.1)
  ]

  events_from-IsEmitted :
      (s : StreamState) (events : List StreamEvent) (end : StreamEnd)
      → IsEmitted s events end (events_from name model_name s events end)
  unfolding events_from final_chunk
  events_from-IsEmitted s [] exhausted =
      ((refl, refl, refl, (_, refl, usage_of_counts-Reports s.input_tokens s.output_tokens)), refl)
  events_from-IsEmitted s [] (failed_with e) = (refl, refl)
  events_from-IsEmitted s (message_start n ∷ events) end =
      events_from-IsEmitted (record s { input_tokens = some n }) events end
  events_from-IsEmitted s (text_delta t ∷ events) end =
      text_IsEmitted s t events end (events_from-IsEmitted s events end)
        (events_from-IsEmitted (record s { sequence = suc s.sequence }) events end)
  events_from-IsEmitted s (message_delta tokens reason ∷ events) end =
      events_from-IsEmitted
        (record s {
          output_tokens = newer tokens s.output_tokens;
          finish_reason = newer reason s.finish_reason;
        })
        events end
  events_from-IsEmitted s (other_event ∷ events) end = events_from-IsEmitted s events end

  -- A stream yields the texts of its events that are not empty, in their order and numbered from 0;
  -- then, if the library ends it, one final chunk with the next number and a usage that passes
  -- its validator: the last reported input and output tokens as billed, and no other count; and if the library raises, no final chunk but the normalized error.
  pub managed_stream-IsEmitted :
      (events : List StreamEvent) (end : StreamEnd)
      → IsEmitted
          (stream_start name model_name)
          events
          end
          (managed_stream name model_name events end)
  unfolding managed_stream
  managed_stream-IsEmitted events end =
      events_from-IsEmitted (stream_start name model_name) events end
