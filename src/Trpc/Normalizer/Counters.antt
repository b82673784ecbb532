-- ===== src/Trpc/Normalizer/Counters.antt =====
-- internal/runtime/trpc/normalize.go: the counters of the normalizer, through every handler, next to
-- the events that it has emitted.
use harnesslab.Runtime.{RunEvent}
use harnesslab.Trpc.Event.{ObjectType, ToolCall, Choice, ResponseError, Event}
use harnesslab.Trpc.Normalizer.{
  Normalizer, Emitting, new_normalizer, begin_model, start_tool, see, response_id, write,
  delta_choices, message_contents, message_choices, take_usage, end_model, handle_chunk,
  handle_completion, end_tool, handle_tool_response, error_event, by_object, on_error, normalize,
  normalize_all,
}
use harnesslab.Trpc.Normalizer.Invariant.{Agrees, Emits-Agrees, counters}
use harnesslab.Trpc.Normalizer.Loops.{delta_choices-keeps, completion_choices-keeps}
use harnesslab.Trpc.Normalizer.Open.{
  IsOpen, begin_model-IsOpen, start_tool-IsOpen, see-IsOpen, write-IsOpen,
}
use harnesslab.Shared.{
  ℕ, ◌%◌, ◌^◌, ◌≡◌, refl, true, Option, none, some, List, [], ◌∷◌, ◌==◌, bytes_eq, if◌then◌else◌,
  Bytes, if-cases, arith,
}
use harnesslab.Shared.Int64.{add64}

-- `add64 a 0` on a number that is already reduced.
reduced : (a t : ℕ) → a ≡ t % 2 ^ 64 → a ≡ add64 a 0
unfolding add64
reduced a t h = omega arith

module _ (now : ℕ → ℕ) (run : Bytes) where
  abbrev Agree : Emitting → Type 0
  Agree s = Agrees run (counters s.0) s.1

  begin_model-Agree : (ev : Event) (s : Emitting) → Agree s → Agree (begin_model now ev s)
  unfolding begin_model
  begin_model-Agree ev (n, out) a =
      if-cases Agree n.in_model (λ e. a)
        (λ e.
          Emits-Agrees out
            (record {
              run = refl;
              seq = refl;
              step = refl;
              id = refl;
              stamped = refl;
              models = refl;
              tools = omega arith;
              tokens_in = reduced _ _ a.tokens_in;
              tokens_out = reduced _ _ a.tokens_out;
              bracketed = rw e refl;
            })
            a)

  start_tool-Agree :
      (tc : ToolCall) (args : Bytes) (s : Emitting) → Agree s → Agree (start_tool now tc args s)
  unfolding start_tool
  start_tool-Agree tc args (n, out) a =
      Emits-Agrees out
        (record {
          run = refl;
          seq = refl;
          step = refl;
          id = refl;
          stamped = refl;
          models = omega arith;
          tools = refl;
          tokens_in = reduced _ _ a.tokens_in;
          tokens_out = reduced _ _ a.tokens_out;
          bracketed = refl;
        })
        a

  -- A model call may end only while one is open.
  end_model-Agree : (s : Emitting) → s.0.in_model ≡ true → Agree s → Agree (end_model now s)
  unfolding end_model
  end_model-Agree (n, out) open_call a =
      Emits-Agrees out
        (record {
          run = refl;
          seq = refl;
          step = refl;
          id = refl;
          stamped = refl;
          models = omega arith;
          tools = omega arith;
          tokens_in = refl;
          tokens_out = refl;
          bracketed = rw open_call refl;
        })
        a

  write-Agree : (text : Bytes) (s : Emitting) → Agree s → Agree (write text s)
  write-Agree text s a = a

  end_tool-Agree : (id text : Bytes) (s : Emitting) → Agree s → Agree (end_tool now id text s)
  unfolding end_tool
  end_tool-Agree id text (n, out) a =
      Emits-Agrees out
        (record {
          run = refl;
          seq = refl;
          step = refl;
          id = refl;
          stamped = refl;
          models = omega arith;
          tools = omega arith;
          tokens_in = reduced _ _ a.tokens_in;
          tokens_out = reduced _ _ a.tokens_out;
          bracketed = refl;
        })
        a

  error_event-Agree :
      (ev : Event) (type : Bytes) (s : Emitting) → Agree s → Agree (error_event now ev type s)
  unfolding error_event
  error_event-Agree ev type (n, out) a =
      Emits-Agrees out
        (record {
          run = refl;
          seq = refl;
          step = refl;
          id = refl;
          stamped = refl;
          models = omega arith;
          tools = omega arith;
          tokens_in = reduced _ _ a.tokens_in;
          tokens_out = reduced _ _ a.tokens_out;
          bracketed = refl;
        })
        a

  see-Agree :
      (id : Bytes) (n : Normalizer) (out : List RunEvent) → Agree (n, out) → Agree (see id n, out)
  see-Agree id n out a = if-cases (λ m. Agree (m, out)) (id == []) (λ _. a) (λ _. a)

  handle_tool_response-Agree :
      (chs : List Choice) (s : Emitting) → Agree s → Agree (handle_tool_response now chs s)
  unfolding handle_tool_response
  handle_tool_response-Agree [] s a = end_tool-Agree [] [] s a
  handle_tool_response-Agree (ch ∷ chs) s a = end_tool-Agree (response_id ch) ch.message.content s a

  handle_chunk-Agree : (ev : Event) (s : Emitting) → Agree s → Agree (handle_chunk now ev s)
  unfolding handle_chunk
  handle_chunk-Agree ev s a =
      let b = begin_model now ev s in
      let a' = begin_model-Agree ev s a in
      let c = delta_choices now ev.choices b in
      let a'' =
        delta_choices-keeps now Agree start_tool-Agree see-Agree write-Agree ev.choices b a' in
      let o =
        delta_choices-keeps now IsOpen (start_tool-IsOpen now) see-IsOpen write-IsOpen ev.choices b
          (begin_model-IsOpen now ev s) in
      if-cases Agree ev.is_done (λ _. end_model-Agree (take_usage ev.usage c) o a'') (λ _. a'')

  handle_completion-Agree :
      (ev : Event) (s : Emitting) → Agree s → Agree (handle_completion now ev s)
  unfolding handle_completion
  handle_completion-Agree ev (n, out) a =
      let b = begin_model now ev (n, out) in
      let c = if n.in_model then b else message_contents ev.choices b in
      let a' = begin_model-Agree ev (n, out) a in
      let a'' =
        completion_choices-keeps now Agree start_tool-Agree see-Agree write-Agree n.in_model
          ev.choices b a' in
      let o =
        completion_choices-keeps now IsOpen (start_tool-IsOpen now) see-IsOpen write-IsOpen
          n.in_model ev.choices b (begin_model-IsOpen now ev (n, out)) in
      end_model-Agree (take_usage ev.usage (message_choices now ev.choices c)) o a''

  by_object-Agree :
      (t : ObjectType) (ev : Event) (s : Emitting) → Agree s → Agree (by_object now t ev s)
  by_object-Agree ObjectType.chat_completion_chunk ev s a = handle_chunk-Agree ev s a
  by_object-Agree ObjectType.chat_completion ev s a = handle_completion-Agree ev s a
  by_object-Agree ObjectType.tool_response ev s a = handle_tool_response-Agree ev.choices s a
  by_object-Agree ObjectType.error ev s a = error_event-Agree ev _ s a
  by_object-Agree ObjectType.plumbing ev s a = a

  on_error-Agree :
      (e : Option ResponseError) (ev : Event) (s : Emitting) → Agree s → Agree (on_error now e ev s)
  on_error-Agree none ev s a = by_object-Agree ev.object ev s a
  on_error-Agree (some e) ev s a = error_event-Agree ev e.type s a

  pub normalize_all-Agree :
      (evs : List Event) (s : Emitting) → Agree s → Agree (normalize_all now evs s)
  unfolding normalize_all
  normalize_all-Agree [] s a = a
  normalize_all-Agree (ev ∷ evs) s a =
      normalize_all-Agree evs (normalize now ev s) (on_error-Agree ev.error ev s a)

-- Over a whole run, whatever the framework sends: the events are numbered 1, 2, … in their ids and
-- steps; the two call counters are the numbers of `model_start` and `tool_start` events; the token
-- counters are the 64-bit sums of what the `model_end` events report; and a `model_start` stands
-- only where no model call is open, a `model_end` only where one is.
pub normalize_all-Agrees :
    (now : ℕ → ℕ) (run : Bytes) (evs : List Event)
    → (let (n, out) = normalize_all now evs (new_normalizer run, []) in Agrees run (counters n) out)
unfolding new_normalizer
normalize_all-Agrees now run evs =
    normalize_all-Agree now run evs (new_normalizer run, [])
      (record {
        named = refl;
        seq = refl;
        step = refl;
        numbered = tt;
        models = refl;
        tools = refl;
        tokens_in = refl;
        tokens_out = refl;
        bracketed = refl;
      })
