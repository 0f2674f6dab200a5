-- ===== src/Adapters/Anthropic/Examples.antt =====
-- adapters/anthropic_managed.py: a stream of two texts that the library ends, and an overload.
use ai_inference_cost_optimi.Prelude.{◌≡◌, refl, none, some, List, [], ◌∷◌}
use ai_inference_cost_optimi.Models.Enums.{system, user}
use ai_inference_cost_optimi.Api.Schemas.{join_text}
use ai_inference_cost_optimi.Adapters.Anthropic.{
  split_messages, StreamEvent, message_start, text_delta, message_delta, exhausted, api_status,
  normalize_error, text_part, stream_start, managed_stream,
}
use ai_inference_cost_optimi.Adapters.Anthropic.Errors.{Fallback, normalize_error-Fallback}
use ai_inference_cost_optimi.Adapters.Anthropic.Events.{IsEmitted, managed_stream-IsEmitted}

abbrev two_texts : List StreamEvent
two_texts =
    message_start 12
    ∷ text_delta "hel"
    ∷ text_delta ""
    ∷ text_delta "lo"
    ∷ message_delta (some 2) (some "end_turn")
    ∷ []

managed_stream-IsEmitted_example :
    IsEmitted
      (stream_start "anthropic" "sonnet")
      two_texts
      exhausted
      (managed_stream "anthropic" "sonnet" two_texts exhausted)
managed_stream-IsEmitted_example = managed_stream-IsEmitted "anthropic" "sonnet" two_texts exhausted

normalize_error-Fallback_example :
    Fallback (api_status 529 none) (normalize_error (api_status 529 none))
normalize_error-Fallback_example = normalize_error-Fallback (api_status 529 none)

split_example :
    split_messages (
      record { role = system; content = text_part "be brief"; name = none }
      ∷ record { role = user; content = text_part "hello"; name = none }
      ∷ [])
    ≡ ("be brief" ∷ [], record { role = "user"; content = "hello" } ∷ [])
unfolding split_messages join_text
split_example = refl
