-- ===== src/Builder/Agreement.antt =====
-- internal/harness/builder/builder.go: the counters of the normalizer and the metrics of `Run`, which
-- count the same run.
use harnesslab.Store.{no_metrics}
use harnesslab.Builder.{tally}
use harnesslab.Builder.Tally.{tally-Adds}
use harnesslab.Trpc.Event.{Event}
use harnesslab.Trpc.Normalizer.{new_normalizer, normalize_all}
use harnesslab.Trpc.Normalizer.Invariant.{is_tool_start, total_in-snoc, total_out-snoc}
use harnesslab.Trpc.Normalizer.Counters.{normalize_all-Agrees}
use harnesslab.Trpc.Agent.{run_framework_agent, last_event}
use harnesslab.Shared.Float.{Floats}
use harnesslab.Shared.{
  ℕ, ◌+◌, ◌%◌, ◌^◌, ◌≡◌, false, some, List, [], ◌∷◌, Bytes, count-append, arith,
}

-- For every run that has started, the metrics that `Run` adds up from its events have the tool calls
-- that the normalizer counted, and, as 64-bit numbers, its input and output tokens.
pub tally-Agrees :
    (F : Floats) (now : ℕ → ℕ) (started ended : ℕ) (run : Bytes) (evs : List Event)
    → (let n = (normalize_all now evs (new_normalizer run, [])).0 in
        let (m, _) =
          tally F (run_framework_agent now started ended run (some evs)) (no_metrics F, false) in
        (m.tool_calls ≡ n.tool_calls)
        × (m.input_tokens % 2 ^ 64 ≡ n.input_tokens)
        × (m.output_tokens % 2 ^ 64 ≡ n.output_tokens))
unfolding run_framework_agent
tally-Agrees F now started ended run evs =
    let (n, out) = normalize_all now evs (new_normalizer run, []) in
    let last = last_event run (n.step + 1) started ended in
    let a = normalize_all-Agrees now run evs in
    let b =
      tally-Adds F (run_framework_agent now started ended run (some evs)) (no_metrics F) false in
    (
      omega (arith, a.tools, b.tools, count-append is_tool_start out (last ∷ [])),
      omega (arith, a.tokens_in, b.tokens_in, total_in-snoc out last),
      omega (arith, a.tokens_out, b.tokens_out, total_out-snoc out last),
    )
