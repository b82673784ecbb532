-- ===== src/Trpc/Normalizer/Tokens.antt =====
-- internal/runtime/trpc/normalize.go: which tokens a call adds to the counters of the run.
use mathlib.Core.Path.{ap, ap₂, ◌∙◌}
use harnesslab.Runtime.{RunEvent}
use harnesslab.Trpc.Event.{ToolCall, Choice, Usage, Event}
use harnesslab.Trpc.Normalizer.{
  Normalizer, Emitting, new_normalizer, begin_model, start_tool, see, end_model, handle_completion,
  message_choices, message_contents, usage_in,
}
use harnesslab.Trpc.Normalizer.Loops.{completion_choices-keeps}
use harnesslab.Shared.{
  ℕ, ◌+◌, ◌%◌, ◌^◌, ◌≡◌, refl, Bool, none, some, List, [], ◌==◌, bytes_eq, if◌then◌else◌, if-cases,
  Bytes, arith,
}
use harnesslab.Shared.Int64.{add64}

module _ (now : ℕ → ℕ) (total last : ℕ) where
  -- The run's total and the last prompt's tokens.
  abbrev pub Counts : Emitting → Type 0
  Counts s = (s.0.input_tokens ≡ total) × (s.0.tokens_in ≡ last)

  begin_model-Counts : (ev : Event) (s : Emitting) → Counts s → Counts (begin_model now ev s)
  unfolding begin_model
  begin_model-Counts ev (n, out) h = if-cases Counts n.in_model (λ e. h) (λ e. h)

  start_tool-Counts :
      (tc : ToolCall) (args : Bytes) (s : Emitting) → Counts s → Counts (start_tool now tc args s)
  unfolding start_tool
  start_tool-Counts tc args s h = h

  see-Counts :
      (id : Bytes) (n : Normalizer) (out : List RunEvent) → Counts (n, out) → Counts (see id n, out)
  see-Counts id n out h = if-cases (λ m. Counts (m, out)) (id == []) (λ _. h) (λ _. h)

  completion_choices-Counts :
      (streaming : Bool) (chs : List Choice) (s : Emitting)
      → Counts s
      → Counts (message_choices now chs (if streaming then s else message_contents chs s))
  completion_choices-Counts =
      completion_choices-keeps now Counts start_tool-Counts see-Counts (λ text s h. h)

module _ (now : ℕ → ℕ) where
  -- A completion frame adds to the run's input tokens the prompt tokens of its usage, and where it
  -- has none, those of the last usage that the run has seen; and it leaves that as the last one.
  pub handle_completion-Counts :
      (ev : Event) (n : Normalizer) (out : List RunEvent)
      → (let prompt = usage_in ev.usage n.tokens_in in
          Counts now (add64 n.input_tokens prompt) prompt (handle_completion now ev (n, out)))
  unfolding handle_completion end_model
  handle_completion-Counts ev n out =
      let b = begin_model now ev (n, out) in
      let (p, q) =
        completion_choices-Counts now n.input_tokens n.tokens_in n.in_model ev.choices b
          (begin_model-Counts now n.input_tokens n.tokens_in ev (n, out) (refl, refl)) in
      (ap₂ (λ t u. add64 t (usage_in ev.usage u)) p q, ap (usage_in ev.usage) q)

  -- Usage is never reset: if the frame after a call brings no usage, the tokens of that call are
  -- counted a second time.
  pub stale_usage :
      (run : Bytes) (ev ev' : Event) (u : Usage)
      → ev.usage ≡ some u
      → ev'.usage ≡ none
      → (handle_completion now ev'
          (handle_completion now ev (new_normalizer run, []))).0.input_tokens
        ≡ (u.prompt_tokens + u.prompt_tokens) % 2 ^ 64
  unfolding new_normalizer add64
  stale_usage run ev ev' u p q =
      let first = handle_completion now ev (new_normalizer run, []) in
      let (a, b) = handle_completion-Counts ev (new_normalizer run) [] in
      let (c, _) = handle_completion-Counts ev' first.0 first.1 in c ∙ rw (a, b, p, q) (omega arith)
