-- ===== src/Trpc/Normalizer/Loops.antt =====
-- internal/runtime/trpc/normalize.go: what the start of a tool call and the silent changes keep, the
-- loops over choices and tool calls keep.
use harnesslab.Trpc.Event.{ToolCall, Choice}
use harnesslab.Trpc.Normalizer.{
  Normalizer, Emitting, start_tool, see, seen, delta_call, delta_calls, write, delta_choices,
  message_contents, message_call, message_calls, message_choices,
}
use harnesslab.Runtime.{RunEvent}
use harnesslab.Shared.{
  ℕ, Bool, not, ◌&&◌, ◌||◌, List, [], ◌∷◌, ◌==◌, bytes_eq, if◌then◌else◌, if-cases, Bytes,
}

module _ (now : ℕ → ℕ) (P : Emitting → Type 0)
    (start_tool-keeps : (tc : ToolCall) (args : Bytes) (s : Emitting)
      → P s
      → P (start_tool now tc args s))
    (see-keeps : (id : Bytes) (n : Normalizer) (out : List RunEvent)
      → P (n, out)
      → P (see id n, out))
    (write-keeps : (text : Bytes) (s : Emitting) → P s → P (write text s)) where
  delta_call-keeps : (tc : ToolCall) (s : Emitting) → P s → P (delta_call now tc s)
  unfolding delta_call
  delta_call-keeps tc (n, out) a =
      let b = see-keeps tc.id n out a in
      if-cases P (tc.name == []) (λ _. b) (λ _. start_tool-keeps tc [] (see tc.id n, out) b)

  delta_calls-keeps : (tcs : List ToolCall) (s : Emitting) → P s → P (delta_calls now tcs s)
  unfolding delta_calls
  delta_calls-keeps [] s a = a
  delta_calls-keeps (tc ∷ tcs) s a =
      delta_calls-keeps tcs (delta_call now tc s) (delta_call-keeps tc s a)

  pub delta_choices-keeps : (chs : List Choice) (s : Emitting) → P s → P (delta_choices now chs s)
  unfolding delta_choices
  delta_choices-keeps [] s a = a
  delta_choices-keeps (ch ∷ chs) s a =
      delta_choices-keeps chs (delta_calls now ch.delta.tool_calls (write ch.delta.content s)) (
        delta_calls-keeps ch.delta.tool_calls (write ch.delta.content s)
          (write-keeps ch.delta.content s a))

  message_contents-keeps : (chs : List Choice) (s : Emitting) → P s → P (message_contents chs s)
  unfolding message_contents
  message_contents-keeps [] s a = a
  message_contents-keeps (ch ∷ chs) s a =
      message_contents-keeps chs (write ch.message.content s) (write-keeps ch.message.content s a)

  message_call-keeps : (tc : ToolCall) (s : Emitting) → P s → P (message_call now tc s)
  unfolding message_call
  message_call-keeps tc (n, out) a =
      if-cases P (tc.name == [] || not (tc.id == []) && seen tc.id n) (λ _. a)
        (λ _. start_tool-keeps tc tc.arguments (see tc.id n, out) (see-keeps tc.id n out a))

  message_calls-keeps : (tcs : List ToolCall) (s : Emitting) → P s → P (message_calls now tcs s)
  unfolding message_calls
  message_calls-keeps [] s a = a
  message_calls-keeps (tc ∷ tcs) s a =
      message_calls-keeps tcs (message_call now tc s) (message_call-keeps tc s a)

  message_choices-keeps : (chs : List Choice) (s : Emitting) → P s → P (message_choices now chs s)
  unfolding message_choices
  message_choices-keeps [] s a = a
  message_choices-keeps (ch ∷ chs) s a =
      message_choices-keeps chs (message_calls now ch.message.tool_calls s)
        (message_calls-keeps ch.message.tool_calls s a)

  -- The choices of a completion frame: the contents are read unless a stream was open.
  pub completion_choices-keeps :
      (streaming : Bool) (chs : List Choice) (s : Emitting)
      → P s
      → P (message_choices now chs (if streaming then s else message_contents chs s))
  completion_choices-keeps streaming chs s h =
      message_choices-keeps chs (if streaming then s else message_contents chs s)
        (if-cases P streaming (λ _. h) (λ _. message_contents-keeps chs s h))
