-- ===== src/Trpc/Normalizer/Open.antt =====
-- internal/runtime/trpc/normalize.go: from the first frame of a model call to its last, the call
-- counts as open.
use harnesslab.Trpc.Event.{ToolCall, Event}
use harnesslab.Trpc.Normalizer.{Normalizer, Emitting, begin_model, start_tool, see, write}
use harnesslab.Runtime.{RunEvent}
use harnesslab.Shared.{ℕ, Bytes, ◌≡◌, refl, true, List, [], ◌==◌, bytes_eq, if-cases}

abbrev pub IsOpen : Emitting → Type 0
IsOpen s = s.0.in_model ≡ true

pub see-IsOpen :
    (id : Bytes) (n : Normalizer) (out : List RunEvent) → IsOpen (n, out) → IsOpen (see id n, out)
see-IsOpen id n out h = if-cases (λ m. IsOpen (m, out)) (id == []) (λ _. h) (λ _. h)

pub write-IsOpen : (text : Bytes) (s : Emitting) → IsOpen s → IsOpen (write text s)
write-IsOpen text s h = h

module _ (now : ℕ → ℕ) where
  pub begin_model-IsOpen : (ev : Event) (s : Emitting) → IsOpen (begin_model now ev s)
  unfolding begin_model
  begin_model-IsOpen ev (n, out) = if-cases IsOpen n.in_model (λ e. e) (λ e. refl)

  pub start_tool-IsOpen :
      (tc : ToolCall) (args : Bytes) (s : Emitting) → IsOpen s → IsOpen (start_tool now tc args s)
  unfolding start_tool
  start_tool-IsOpen tc args s h = h
