-- ===== src/Adapters/OpenaiCompat/Lines.antt =====
-- adapters/openai_compat.py: the chunks of a stream, whatever its lines are.
use ai_inference_cost_optimi.Prelude.{
  ℕ, suc, ◌≤◌, ◌<◌, String, ◌≡◌, refl, sym, subst, ◌≢◌, ◌⊎◌, inl, inr, Bool, true, false, Option,
  none, some, List, [], ◌∷◌, ◌++◌, arith, leb, if◌then◌else◌, Bool-cases, Option-cases,
}
use ai_inference_cost_optimi.Prelude.Equality.{◌==◌, string_eq}
use ai_inference_cost_optimi.Prelude.Result.{Result, ok, err, Result-cases}
use ai_inference_cost_optimi.Models.Enums.{ErrorClass, timeout, malformed_response}
use ai_inference_cost_optimi.Models.Errors.{NormalizedError, normalized_error, normalize_http_error}
use ai_inference_cost_optimi.Models.Domain.{
  CanonicalContentPart, NormalizedUsage, unavailable_usage, ProviderChunk,
}
use ai_inference_cost_optimi.Adapters.Anthropic.{text_part, newer}
use ai_inference_cost_optimi.Adapters.Anthropic.Events.{Body}
use ai_inference_cost_optimi.Adapters.OpenaiCompat.{
  Count, no_int, below_zero, tokens, UsageObject, Raised, provider_error, unexpected_exception,
  Choice, Line, no_data, done_mark, invalid_json, no_object, event, LinesEnd, closed,
  client_timeout, client_error, LinesState, Sent, usage_from_payload, next_usage, raise_for_status,
  line_chunk, last_chunk, complete, take_choice, lines_from, compat_stream,
}
use ai_inference_cost_optimi.Adapters.OpenaiCompat.Usage.{Counted, usage_from_payload-Counted}

-- A usage with two integers of which one is below 0.
abbrev negative : Count → Count → Bool
negative no_int c = false
negative below_zero no_int = false
negative (tokens p) no_int = false
negative below_zero _ = true
negative (tokens p) below_zero = true
negative (tokens p) (tokens c) = false

abbrev refused : Option (Option UsageObject) → Bool
refused none = false
refused (some none) = false
refused (some (some o)) = negative o.prompt_tokens o.completion_tokens

-- The events before the line at which reading stops.
abbrev Event : Type 0
Event = Option (Option UsageObject) × Option Choice

abbrev pub spoken : List Line → List Event
spoken [] = []
spoken (no_data ∷ lines) = spoken lines
spoken (done_mark ∷ lines) = []
spoken (invalid_json ∷ lines) = []
spoken (no_object ∷ lines) = []
spoken (event payload choice ∷ lines) =
    let rest = spoken lines in if refused payload then [] else (payload, choice) ∷ rest

-- What they say: the texts that are not empty, and the last usage.
abbrev text_of : Option Choice → List (List CanonicalContentPart)
text_of none = []
text_of (some c) = elim c.text [ none ↦ [] | some t ↦ if t == "" then [] else text_part t ∷ [] ]

abbrev pub texts : List Event → List (List CanonicalContentPart)
texts [] = []
texts ((payload, choice) ∷ events) = text_of choice ++ texts events

abbrev pub last_payload : Option (Option UsageObject) → List Event → Option (Option UsageObject)
last_payload x [] = x
last_payload x ((payload, choice) ∷ events) = last_payload (newer payload x) events

-- The usage of a payload: none says nothing, and neither does one that is no object.
abbrev pub Reported : Option (Option UsageObject) → NormalizedUsage → Type 0
Reported none u = u ≡ unavailable_usage
Reported (some none) u = u ≡ unavailable_usage
Reported (some (some o)) u = Counted o.prompt_tokens o.completion_tokens (ok u)

-- After the texts: one final chunk with the usage, or nothing.
abbrev pub Closing : Option Raised → Option (Option UsageObject) → ℕ → List ProviderChunk → Type 0
Closing none payload n (c ∷ []) =
    (c.sequence ≡ n)
    × (c.delta ≡ [])
    × (c.is_final ≡ true)
    × ((u : NormalizedUsage) × (c.usage ≡ some u) × Reported payload u)
Closing none payload n _ = ⊥
Closing (some e) payload n chunks = chunks ≡ []

abbrev Fails : ErrorClass → Option Raised → Type 0
Fails c raised = (e : NormalizedError) × (raised ≡ some (provider_error e)) × (e.error_class ≡ c)

-- How reading stops: by the end mark or the end of the lines, or by an error.
abbrev pub Stops : List Line → LinesEnd → Option Raised → Type 0
Stops [] closed raised = raised ≡ none
Stops [] client_timeout raised = Fails timeout raised
Stops [] client_error raised = Fails timeout raised
Stops (no_data ∷ lines) end raised = Stops lines end raised
Stops (done_mark ∷ lines) end raised = raised ≡ none
Stops (invalid_json ∷ lines) end raised = Fails malformed_response raised
Stops (no_object ∷ lines) end raised = Fails malformed_response raised
Stops (event payload choice ∷ lines) end raised =
    ((refused payload ≡ true) × (raised ≡ some unexpected_exception))
    ⊎ ((refused payload ≡ false) × Stops lines end raised)

-- A run from chunk number `n` and a usage on.
abbrev pub Reads : ℕ → Option (Option UsageObject) → List Line → LinesEnd → Sent → Type 0
Reads n payload lines end run =
    Body n (texts (spoken lines)) run.chunks
      (Closing run.raised (last_payload payload (spoken lines)))
    × Stops lines end run.raised

abbrev pub IsSent : ℕ → List Line → LinesEnd → Sent → Type 0
IsSent status lines end run =
    ((400 ≤ status) × (run.chunks ≡ []) × (run.raised ≢ none))
    ⊎ ((status < 400) × Reads 0 none lines end run)

count_cases :
    (p c : Count) (r : Result Raised NormalizedUsage)
    → Counted p c r
    → ((negative p c ≡ false) × ((u : NormalizedUsage) × (r ≡ ok u) × Counted p c (ok u)))
      ⊎ ((negative p c ≡ true) × (r ≡ err unexpected_exception))
count_cases (tokens p) (tokens c) r (u, e, splits) = inl (refl, (u, e, (u, refl, splits)))
count_cases no_int c r h = inl (refl, (unavailable_usage, h, refl))
count_cases below_zero no_int r h = inl (refl, (unavailable_usage, h, refl))
count_cases (tokens p) no_int r h = inl (refl, (unavailable_usage, h, refl))
count_cases below_zero below_zero r h = inr (refl, h)
count_cases below_zero (tokens c) r h = inr (refl, h)
count_cases (tokens p) below_zero r h = inr (refl, h)

next_usage_cases :
    (payload before : Option (Option UsageObject)) (usage : NormalizedUsage)
    → Reported before usage
    → ((refused payload ≡ false)
        × ((u : NormalizedUsage) × (next_usage payload usage ≡ ok u)
            × Reported (newer payload before) u))
      ⊎ ((refused payload ≡ true) × (next_usage payload usage ≡ err unexpected_exception))
unfolding next_usage usage_from_payload
next_usage_cases none before usage h = inl (refl, (usage, refl, h))
next_usage_cases (some none) before usage h = inl (refl, (unavailable_usage, refl, refl))
next_usage_cases (some (some o)) before usage h =
    count_cases o.prompt_tokens o.completion_tokens _ (usage_from_payload-Counted o)

-- An answer is refused from status 400 on.
raise_cases :
    (status : ℕ) (retry_after : Option ℕ)
    → ((status < 400) × (raise_for_status status retry_after ≡ none))
      ⊎ ((400 ≤ status) × ((e : Raised) × (raise_for_status status retry_after ≡ some e)))
unfolding raise_for_status
raise_cases status retry_after = elim (Bool-cases (leb 400 status)) [
  | inr low ↦ inl (ground arith, rw low refl)
  | inl high ↦ elim (Result-cases (normalize_http_error status "returned HTTP" retry_after)) [
    | inl (x, e) ↦ inr (ground arith, (provider_error x, rw (high, e) refl))
    | inr (x, e) ↦ inr (ground arith, (unexpected_exception, rw (high, e) refl))
  ]
]

module _ (name model_name : String) where
  -- The chunk of a choice, if it has a text, before a run.
  take_choice-Body :
      (choice : Option Choice) (s : LinesState) (rest : LinesState → Sent)
      (ts : List (List CanonicalContentPart))
      (After : Option Raised → ℕ → List ProviderChunk → Type 0) (Stop : Option Raised → Type 0)
      → ((s' : LinesState)
          → s'.usage ≡ s.usage
          → Body s'.sequence ts (rest s').chunks (After (rest s').raised) × Stop (rest s').raised)
      → Body s.sequence
          (text_of choice ++ ts)
          (take_choice name model_name choice s rest).chunks
          (After (take_choice name model_name choice s rest).raised)
        × Stop (take_choice name model_name choice s rest).raised
  unfolding take_choice line_chunk
  take_choice-Body none s rest ts After Stop h = h s refl
  take_choice-Body (some choice) s rest ts After Stop h = elim (Option-cases choice.text) [
    | inl e ↦ rw e (h _ refl)
    | inr (t, e) ↦ elim (Bool-cases (t == "")) [
      | inl empty ↦ rw (e, empty) (h _ refl)
      | inr full ↦
          let next =
            h
              (record s {
                sequence = suc s.sequence;
                finish_reason = newer choice.finish_reason s.finish_reason;
              })
              refl in
          rw (e, full, full) ((refl, refl, refl, refl, next.0), next.1)
    ]
  ]

  lines_from-Reads :
      (s : LinesState) (payload : Option (Option UsageObject)) (lines : List Line) (end : LinesEnd)
      → Reported payload s.usage
      → Reads s.sequence payload lines end (lines_from name model_name s lines end)
  unfolding lines_from complete last_chunk normalized_error
  lines_from-Reads s payload [] closed h = ((refl, refl, refl, (_, refl, h)), refl)
  lines_from-Reads s payload [] client_timeout h = (refl, (_, refl, refl))
  lines_from-Reads s payload [] client_error h = (refl, (_, refl, refl))
  lines_from-Reads s payload (no_data ∷ lines) end h = lines_from-Reads s payload lines end h
  lines_from-Reads s payload (done_mark ∷ lines) end h = ((refl, refl, refl, (_, refl, h)), refl)
  lines_from-Reads s payload (invalid_json ∷ lines) end h = (refl, (_, refl, refl))
  lines_from-Reads s payload (no_object ∷ lines) end h = (refl, (_, refl, refl))
  lines_from-Reads s payload (event new choice ∷ lines) end h =
      elim (next_usage_cases new payload s.usage h) [
        | inr (bad, e) ↦ rw (bad, e, lines_from) (refl, inl (refl, refl))
        | inl (good, (u, e, reported)) ↦
            let run =
              take_choice-Body choice (record s { usage = u })
                (λ s'. lines_from name model_name s' lines end) (texts (spoken lines))
                (λ raised. Closing raised (last_payload (newer new payload) (spoken lines)))
                (Stops lines end)
                (λ s' same.
                  lines_from-Reads s' (newer new payload) lines end
                    (subst (Reported (newer new payload)) (sym same) reported)) in
            rw (good, e, lines_from) (run.0, inr (refl, run.1))
      ]

  -- Below status 400 the chunks are the texts of the events that are not empty, in order and numbered
  -- from 0, up to the end mark or the line that fails. If nothing fails, one final chunk follows with
  -- the usage of the last payload, or the usage that says nothing if there was none; an error leaves
  -- no final chunk: an invalid line is a malformed response, a usage with a count below 0 an exception
  -- that is no ProviderError, a lost connection a timeout. From status 400 on nothing is sent.
  pub compat_stream-IsSent :
      (status : ℕ) (retry_after : Option ℕ) (lines : List Line) (end : LinesEnd)
      → IsSent status lines end (compat_stream name model_name status retry_after lines end)
  unfolding compat_stream
  compat_stream-IsSent status retry_after lines end = elim (raise_cases status retry_after) [
    | inl (low, e) ↦ rw (e, compat_stream) (inr (low, lines_from-Reads _ none lines end refl))
    | inr (high, (x, e)) ↦ rw (e, compat_stream) (inl (high, refl, λ p. cc))
  ]
