-- ===== src/Benchmark/Harness/Chunks.antt =====
-- benchmark/harness.py and api/routes.py: one chunk, as the benchmark's client reads it back.
use Prim.Native.String.{◌++◌ as append}
use Prim.Native.String.append.{nil}
use text.Mathlib.TextLemmas.{append-nil, append_assoc as text_assoc}
use ai_inference_cost_optimi.Prelude.{
  ℕ, suc, String, ◌≡◌, refl, sym, ap, ◌∙◌, inl, inr, true, Option, none, some, List, [], ◌∷◌, ◌++◌,
  if◌then◌else◌, Bool-cases,
}
use ai_inference_cost_optimi.Prelude.Equality.{◌==◌, string_eq}
use ai_inference_cost_optimi.Prelude.Dict.{Dict}
use ai_inference_cost_optimi.Models.Domain.{ProviderChunk}
use ai_inference_cost_optimi.Api.Schemas.{
  UsagePayload, completion_chunk, usage_payload, join_text, filled, nonempty_text,
}
use ai_inference_cost_optimi.Api.Response.{Event}
use ai_inference_cost_optimi.Api.Respond.{Routed, item_events}
use ai_inference_cost_optimi.Benchmark.Harness.{
  ChoiceSeen, event_line, Reading, first_time, append_text, take_content, read_line, read_lines,
  joined, nonempty,
}
use ai_inference_cost_optimi.Benchmark.Harness.Lines.{
  usage_object, sent_lines, newer_usage, content_of, object_of, chunk_usage,
}

joined-append_text :
    (texts : List String) (t : String) → joined (append_text texts t) ≡ append (joined texts) t
unfolding joined
joined-append_text [] t = append-nil t ∙ sym (nil t)
joined-append_text (x ∷ texts) t =
    ap (append x) (joined-append_text texts t) ∙ sym (text_assoc x (joined texts) t)

-- What one chunk changes.
abbrev pub add_text : List String → String → List String
add_text output text = if text == "" then output else append_text output text

abbrev pub after_chunk : ℕ → ProviderChunk → Reading → Reading
after_chunk now c r =
    let text = join_text c.delta in
    record {
      output = add_text r.output text;
      usage = if c.is_final then chunk_usage c r.usage else r.usage;
      stream_error = r.stream_error;
      first_content_at =
          if text == "" then r.first_content_at else some (first_time r.first_content_at now);
      finish_reason = if c.is_final then some (filled c.finish_reason "stop") else r.finish_reason;
    }

filled-nonempty : (o : Option String) → nonempty (some (filled o "stop")) ≡ true
filled-nonempty none = refl
filled-nonempty (some s) = elim (Bool-cases (s == "")) [
  | inl e ↦ rw e refl
  | inr e ↦ rw (e, e) refl
]

-- The choice of a chunk's event.
abbrev seen : String → Option String → ChoiceSeen
seen text finish = record {
  content = content_of (nonempty_text (some text));
  finish_reason = finish;
}

abbrev after_event : ℕ → String → Option String → Dict ℕ → Reading → Reading
after_event now text finish usage r = record {
  output = add_text r.output text;
  usage = usage;
  stream_error = r.stream_error;
  first_content_at =
      if text == "" then r.first_content_at else some (first_time r.first_content_at now);
  finish_reason = finish;
}

take_content_lem :
    (now : ℕ) (text : String) (finish : Option String) (r : Reading)
    → take_content now (some (seen text finish)) r
      ≡ after_event now text (if nonempty finish then finish else r.finish_reason) r.usage r
unfolding take_content
take_content_lem now text finish r = elim (Bool-cases (text == "")) [
  | inl e ↦ rw e refl
  | inr e ↦ rw e (rw e refl)
]

event_read :
    (now : ℕ) (text : String) (finish : Option String) (p : Option UsagePayload) (r : Reading)
    → read_line now (event_line (some (seen text finish)) (object_of p)) r
      ≡ after_event now text
          (if nonempty finish then finish else r.finish_reason)
          (newer_usage p r.usage)
          r
unfolding read_line
event_read now text finish none r = take_content_lem now text finish r
event_read now text finish (some payload) r =
    ap (λ (r' : Reading). record r' { usage = usage_object payload })
      (take_content_lem now text finish r)

final_read :
    (now : ℕ) (text : String) (o : Option String) (p : Option UsagePayload) (r : Reading)
    → read_line now (event_line (some (seen text (some (filled o "stop")))) (object_of p)) r
      ≡ after_event now text (some (filled o "stop")) (newer_usage p r.usage) r
final_read now text o p r =
    event_read now text (some (filled o "stop")) p r ∙ rw (filled-nonempty o) refl

-- A chunk's events, and the empty line after each, leave what the chunk changes.
pub item_read :
    (clock : ℕ → ℕ) (i : ℕ) (q : Routed) (c : ProviderChunk) (es : List Event) (r : Reading)
    → (j : ℕ) × (read_lines clock i r (sent_lines (item_events q c ++ es))
        ≡ read_lines clock j (after_chunk (clock i) c r) (sent_lines es))
unfolding item_events read_lines read_line take_content sent_lines completion_chunk
item_read clock i q c es r = elim (Bool-cases c.is_final) [
  | inl f ↦ rw f (
    suc (suc i),
    ap (λ (r' : Reading). read_lines clock (suc (suc i)) r' (sent_lines es))
        (final_read (clock i) (join_text c.delta) c.finish_reason
          (elim c.usage [ none ↦ none | some u ↦ usage_payload u ]) r),
  )
  | inr f ↦ elim (Bool-cases (join_text c.delta == "")) [
    | inl e ↦ rw (f, e) (i, refl)
    | inr e ↦ rw (f, e) (suc (suc i), rw e refl)
  ]
]

pub joined-add_text :
    (texts : List String) (t : String) → joined (add_text texts t) ≡ append (joined texts) t
joined-add_text texts t = elim (Bool-cases (t == "")) [
  | inl e ↦ rw ((string_eq.same_iff t "").0 e) (sym (append-nil (joined texts)))
  | inr e ↦ rw e (joined-append_text texts t)
]
