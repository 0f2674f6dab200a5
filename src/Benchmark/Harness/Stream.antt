-- ===== src/Benchmark/Harness/Stream.antt =====
-- benchmark/harness.py and api/routes.py: the benchmark's client reads back what the gateway streams.
use Prim.Native.String.{◌++◌ as append}
use Prim.Native.String.append.{nil}
use text.Mathlib.TextLemmas.{append-nil, append_assoc as text_assoc}
use mathlib.Core.List.{append_assoc}
use ai_inference_cost_optimi.Prelude.{
  ℕ, suc, String, ◌≡◌, refl, sym, ap, ◌∙◌, Bool, true, false, ◌||◌, not, Option, none, some, List,
  [], ◌∷◌, ◌++◌, if◌then◌else◌, All, present,
}
use ai_inference_cost_optimi.Prelude.Equality.{◌==◌, string_eq}
use ai_inference_cost_optimi.Prelude.Result.{Result, ok, err}
use ai_inference_cost_optimi.Routing.Fallback.{
  Failure, provider_error, missing_provider, missing_adapter, unexpected,
}
use ai_inference_cost_optimi.Api.Schemas.{join_text}
use ai_inference_cost_optimi.Api.Response.{Event}
use ai_inference_cost_optimi.Api.Respond.{Routed, item_events, items_events, final_events}
use ai_inference_cost_optimi.Benchmark.Harness.{
  StreamLine, other_line, Reading, first_time, read_line, read_lines, nothing_read, stream_text,
  joined,
}
use ai_inference_cost_optimi.Benchmark.Harness.Lines.{
  sent_lines, sent_text, sent_usage, sent_finish, has_text, Item, Closed, closing_code,
}
use ai_inference_cost_optimi.Benchmark.Harness.Chunks.{after_chunk, item_read, joined-add_text}

-- What the client has read of a stream's items, from what it had before.
record Holds (before after : Reading) (items : List Item) : Type 0 where
  text : joined after.output ≡ append (joined before.output) (sent_text items)
  usage : after.usage ≡ sent_usage before.usage items
  finish : after.finish_reason ≡ sent_finish before.finish_reason items
  error : after.stream_error ≡ before.stream_error
  timed : present after.first_content_at ≡ (present before.first_content_at || has_text items)

or_false : (b : Bool) → b ≡ (b || false)
or_false true = refl
or_false false = refl

items_read :
    (clock : ℕ → ℕ) (i : ℕ) (q : Routed) (items : List Item) (es : List Event) (r : Reading)
    → (j : ℕ) × (after : Reading) × (read_lines clock i r (sent_lines (items_events q items ++ es))
        ≡ read_lines clock j after (sent_lines es))
      × Holds r after items
unfolding items_events sent_text sent_usage sent_finish has_text
items_read clock i q [] es r = (
  i,
  r,
  refl,
  record {
    text = sym (append-nil (joined r.output));
    usage = refl;
    finish = refl;
    error = refl;
    timed = or_false (present r.first_content_at);
  },
)
items_read clock i q ((provider, index, c) ∷ items) es r =
    let (j, e) = item_read clock i q c (items_events q items ++ es) r in
    let (k, after, f, h) = items_read clock j q items es (after_chunk (clock i) c r) in
    (
      k,
      after,
      ap (λ (l : List Event). read_lines clock i r (sent_lines l))
            (append_assoc (item_events q c) (items_events q items) es)
          ∙ e
          ∙ f,
      record {
        text =
            h.text
            ∙ ap (λ (t : String). append t (sent_text items))
                (joined-add_text r.output (join_text c.delta))
            ∙ text_assoc (joined r.output) (join_text c.delta) (sent_text items);
        usage = h.usage;
        finish = h.finish;
        error = h.error;
        timed = h.timed ∙ timed_chunk (join_text c.delta == "") r.first_content_at (has_text items);
      },
    )
  where
    timed_chunk :
        (empty : Bool) (at : Option ℕ) (later : Bool)
        → (present (if empty then at else some (first_time at (clock i))) || later)
          ≡ (present at || (not empty || later))
    timed_chunk true none later = refl
    timed_chunk true (some t) later = refl
    timed_chunk false none later = refl
    timed_chunk false (some t) later = refl

-- What the client has of a stream that ends by itself: the text of all chunks, the usage and the
-- finish reason of the last final chunk that has them, the code that the stream ends with, and a
-- time of the first content just if some chunk has a text.
pub record IsReceived (r : Reading) (items : List Item) (outcome : Result Failure (Unit {0}))
    : Type 0 where
  pub text : joined r.output ≡ sent_text items
  pub usage : r.usage ≡ sent_usage [] items
  pub finish : r.finish_reason ≡ sent_finish none items
  pub error : r.stream_error ≡ closing_code outcome
  pub timed : present r.first_content_at ≡ has_text items

-- The client reads a stream that the gateway ends itself as it was sent: whatever the clock, it has
-- the texts of all chunks in order, the usage and finish reason of the last final chunk that has
-- them, no error code after a success and the class of the error after a ProviderError; and it has
-- seen first content just if some chunk has a text.
pub stream_text-IsReceived :
    (clock : ℕ → ℕ) (q : Routed) (items : List Item) (outcome : Result Failure (Unit {0}))
    → Closed outcome
    → IsReceived
        (stream_text clock (sent_lines (items_events q items ++ final_events outcome)))
        items
        outcome
unfolding stream_text joined read_lines read_line sent_lines final_events
stream_text-IsReceived clock q items outcome closed =
    let (j, after, e, h) = items_read clock 0 q items (final_events outcome) nothing_read in
    rw e (finish outcome closed j after h)
  where
    finish :
        (outcome : Result Failure (Unit {0}))
        → Closed outcome
        → (j : ℕ) (after : Reading) → Holds nothing_read after items
        → IsReceived (read_lines clock j after (sent_lines (final_events outcome))) items outcome
    finish (ok u) c j after h = record {
      text = h.text ∙ nil (sent_text items);
      usage = h.usage;
      finish = h.finish;
      error = h.error;
      timed = h.timed;
    }
    finish (err (provider_error e)) c j after h = record {
      text = h.text ∙ nil (sent_text items);
      usage = h.usage;
      finish = h.finish;
      error = refl;
      timed = h.timed;
    }
    finish (err (missing_provider n)) c j after h = absurd c
    finish (err (missing_adapter n)) c j after h = absurd c
    finish (err unexpected) c j after h = absurd c

read_lines-other :
    (clock : ℕ → ℕ) (i : ℕ) (r : Reading) (lines : List StreamLine)
    → All (λ line. line ≡ other_line) lines
    → read_lines clock i r lines ≡ r
unfolding read_lines read_line
read_lines-other clock i r [] h = refl
read_lines-other clock i r (line ∷ lines) h = rw h.0 (read_lines-other clock (suc i) r lines h.1)

-- A body without data leaves nothing.
pub stream_text-other :
    (clock : ℕ → ℕ) (lines : List StreamLine)
    → All (λ line. line ≡ other_line) lines
    → stream_text clock lines ≡ nothing_read
unfolding stream_text
stream_text-other clock lines h = read_lines-other clock 0 nothing_read lines h
