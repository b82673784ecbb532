-- ===== src/Trpc/Normalizer.antt =====
-- internal/runtime/trpc/normalize.go: framework events become run events, and a run's counters.
-- `now k` is what the clock says when the event with the number `k` is built. Counters that grow by
-- one for an event are plain numbers; token sums are 64-bit sums.
pub mod Invariant
pub mod Counters
pub mod Open
pub mod Loops
pub mod Tokens
use harnesslab.Runtime.{RunEvent, EventType, ModelEvent, ToolEvent, ErrorEvent}
use harnesslab.Shared.{
  ℕ, zero, suc, ◌+◌, Bool, true, false, not, ◌&&◌, ◌||◌, Option, none, some, List, [], ◌∷◌, ◌++◌,
  leb, ◌==◌, bytes_eq, if◌then◌else◌, Bytes, bytes, length, take, any,
}
use harnesslab.Shared.Int64.{add64}
use harnesslab.Shared.Format.{pad5}
use harnesslab.Trpc.Event.{ObjectType, ToolCall, Choice, Usage, ResponseError, Event}

abbrev pub max_content_len : ℕ
max_content_len = 800

unfoldable pub clip : Bytes → Bytes
clip s = if leb (length s) max_content_len then s else take max_content_len s ++ bytes "..."

-- A Go map from strings to strings: a missing key reads as the empty string.
abbrev pub name_at : Bytes → List (Bytes × Bytes) → Bytes
name_at k [] = []
name_at k ((j, v) ∷ m) = if j == k then v else name_at k m

pub record Normalizer : Type 0 where
  pub run_id : Bytes
  pub seq : ℕ
  pub step : ℕ
  pub in_model : Bool
  pub model_name : Bytes
  pub tokens_in : ℕ
  pub tokens_out : ℕ
  pub content : Bytes
  pub tool_names : List (Bytes × Bytes)
  pub seen_tool_ids : List Bytes
  pub last_tool_name : Bytes
  pub model_calls : ℕ
  pub tool_calls : ℕ
  pub input_tokens : ℕ
  pub output_tokens : ℕ

unfoldable pub new_normalizer : Bytes → Normalizer
new_normalizer run_id = record {
  run_id = run_id;
  seq = 0;
  step = 0;
  in_model = false;
  model_name = [];
  tokens_in = 0;
  tokens_out = 0;
  content = [];
  tool_names = [];
  seen_tool_ids = [];
  last_tool_name = [];
  model_calls = 0;
  tool_calls = 0;
  input_tokens = 0;
  output_tokens = 0;
}

-- fmt.Sprintf("%s-%05d", runID, seq)
unfoldable pub event_id : Bytes → ℕ → Bytes
unfolding pad5
event_id run_id k = run_id ++ (b'-' ∷ pad5 k)

-- The normalizer, and the events that the call under way has emitted.
abbrev pub Emitting : Type 0
Emitting = Normalizer × List RunEvent

abbrev pub seen : Bytes → Normalizer → Bool
seen id n = any (λ j. j == id) n.seen_tool_ids

abbrev pub usage_in : Option Usage → ℕ → ℕ
usage_in none old = old
usage_in (some u) old = u.prompt_tokens

abbrev pub usage_out : Option Usage → ℕ → ℕ
usage_out none old = old
usage_out (some u) old = u.completion_tokens

abbrev error_message : Option ResponseError → Bytes
error_message none = bytes "unknown error"
error_message (some e) = if e.message == [] then bytes "unknown error" else e.message

abbrev pub see : Bytes → Normalizer → Normalizer
see id n = if id == [] then n else record n { seen_tool_ids = id ∷ n.seen_tool_ids }

abbrev pub write : Bytes → Emitting → Emitting
write text (n, out) = (record n { content = n.content ++ text }, out)

unfoldable pub message_contents : List Choice → Emitting → Emitting
message_contents [] s = s
message_contents (ch ∷ chs) s = message_contents chs (write ch.message.content s)

abbrev pub take_usage : Option Usage → Emitting → Emitting
take_usage u (n, out) =
    (record n { tokens_in = usage_in u n.tokens_in; tokens_out = usage_out u n.tokens_out }, out)

abbrev pub response_id : Choice → Bytes
response_id ch = if ch.message.tool_id == [] then ch.delta.tool_id else ch.message.tool_id

abbrev pub response_name : Bytes → Normalizer → Bytes
response_name id n =
    if name_at id n.tool_names == [] then n.last_tool_name else name_at id n.tool_names

module _ (now : ℕ → ℕ) where
  abbrev pub blank : Normalizer → EventType → RunEvent
  blank n t = record {
    id = event_id n.run_id (n.seq + 1);
    run_id = n.run_id;
    parent_id = [];
    type = t;
    timestamp = now (n.seq + 1);
    duration_ms = 0;
    step = n.step + 1;
    model = none;
    tool = none;
    error = none;
  }

  -- `emit`: the next numbers, the event, and its payload by `fill`.
  unfoldable pub emit : Emitting → EventType → (RunEvent → RunEvent) → Emitting
  emit (n, out) t fill =
      (record n { seq = n.seq + 1; step = n.step + 1 }, out ++ fill (blank n t) ∷ [])

  -- `model_start` on the first frame of a call.
  unfoldable pub begin_model : Event → Emitting → Emitting
  unfolding emit
  begin_model ev (n, out) =
      if n.in_model
      then (n, out)
      else emit
          (
            record n { in_model = true; model_calls = n.model_calls + 1; model_name = ev.model },
            out,
          )
          EventType.model_start
          (λ e. record e {
            model = some (record { model = ev.model; tokens_in = 0; tokens_out = 0; content = [] });
          })

  -- `tool_start`, with the bookkeeping on the call's name.
  unfoldable pub start_tool : ToolCall → Bytes → Emitting → Emitting
  unfolding emit
  start_tool tc arguments (n, out) =
      emit
        (
          record n {
            tool_calls = n.tool_calls + 1;
            last_tool_name = tc.name;
            tool_names = (tc.id, tc.name) ∷ n.tool_names;
          },
          out,
        )
        EventType.tool_start
        (λ e. record e {
          tool =
              some
                (record { name = tc.name; arguments = arguments; result = []; exit_code = none });
        })

  unfoldable pub delta_call : ToolCall → Emitting → Emitting
  unfolding start_tool
  delta_call tc (n, out) =
      if tc.name == [] then (see tc.id n, out) else start_tool tc [] (see tc.id n, out)

  unfoldable pub delta_calls : List ToolCall → Emitting → Emitting
  unfolding delta_call
  delta_calls [] s = s
  delta_calls (tc ∷ tcs) s = delta_calls tcs (delta_call tc s)

  unfoldable pub delta_choices : List Choice → Emitting → Emitting
  unfolding delta_calls
  delta_choices [] s = s
  delta_choices (ch ∷ chs) s =
      delta_choices chs (delta_calls ch.delta.tool_calls (write ch.delta.content s))

  unfoldable pub message_call : ToolCall → Emitting → Emitting
  unfolding start_tool
  message_call tc (n, out) =
      if tc.name == [] || not (tc.id == []) && seen tc.id n
      then (n, out)
      else start_tool tc tc.arguments (see tc.id n, out)

  unfoldable pub message_calls : List ToolCall → Emitting → Emitting
  unfolding message_call
  message_calls [] s = s
  message_calls (tc ∷ tcs) s = message_calls tcs (message_call tc s)

  unfoldable pub message_choices : List Choice → Emitting → Emitting
  unfolding message_calls
  message_choices [] s = s
  message_choices (ch ∷ chs) s = message_choices chs (message_calls ch.message.tool_calls s)

  -- `model_end`, with the counters of the run.
  unfoldable pub end_model : Emitting → Emitting
  unfolding emit
  end_model (n, out) =
      emit
        (
          record n {
            in_model = false;
            input_tokens = add64 n.input_tokens n.tokens_in;
            output_tokens = add64 n.output_tokens n.tokens_out;
            content = [];
          },
          out,
        )
        EventType.model_end
        (λ e. record e {
          model = some (record {
            model = n.model_name;
            tokens_in = n.tokens_in;
            tokens_out = n.tokens_out;
            content = clip n.content;
          });
        })

  unfoldable pub handle_chunk : Event → Emitting → Emitting
  unfolding begin_model delta_choices end_model
  handle_chunk ev s =
      let s' = take_usage ev.usage (delta_choices ev.choices (begin_model ev s)) in
      if ev.is_done then end_model s' else s'

  unfoldable pub handle_completion : Event → Emitting → Emitting
  unfolding begin_model message_contents message_choices end_model
  handle_completion ev (n, out) =
      let s = begin_model ev (n, out) in
      let s' = if n.in_model then s else message_contents ev.choices s in
      end_model (take_usage ev.usage (message_choices ev.choices s'))

  unfoldable pub end_tool : Bytes → Bytes → Emitting → Emitting
  unfolding emit
  end_tool id result (n, out) =
      emit (n, out) EventType.tool_end
        (λ e. record e {
          tool = some (record {
            name = response_name id n;
            arguments = [];
            result = clip result;
            exit_code = none;
          });
        })

  unfoldable pub handle_tool_response : List Choice → Emitting → Emitting
  unfolding end_tool
  handle_tool_response [] s = end_tool [] [] s
  handle_tool_response (ch ∷ chs) s = end_tool (response_id ch) ch.message.content s

  unfoldable pub error_event : Event → Bytes → Emitting → Emitting
  unfolding emit
  error_event ev type s = emit s EventType.error (λ e. record e {
    error = some (record { message = clip (error_message ev.error); type = type });
  })

  abbrev pub by_object : ObjectType → Event → Emitting → Emitting
  by_object ObjectType.chat_completion_chunk ev s = handle_chunk ev s
  by_object ObjectType.chat_completion ev s = handle_completion ev s
  by_object ObjectType.tool_response ev s = handle_tool_response ev.choices s
  by_object ObjectType.error ev s = error_event ev (bytes "model_error") s
  by_object ObjectType.plumbing ev s = s

  abbrev pub on_error : Option ResponseError → Event → Emitting → Emitting
  on_error none ev s = by_object ev.object ev s
  on_error (some e) ev s = error_event ev e.type s

  -- `normalize`, its events appended to those already there.
  unfoldable pub normalize : Event → Emitting → Emitting
  unfolding handle_chunk handle_completion handle_tool_response error_event
  normalize ev s = on_error ev.error ev s

  -- The loop over the framework's events.
  unfoldable pub normalize_all : List Event → Emitting → Emitting
  unfolding normalize
  normalize_all [] s = s
  normalize_all (ev ∷ evs) s = normalize_all evs (normalize ev s)
