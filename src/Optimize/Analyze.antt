-- ===== src/Optimize/Analyze.antt =====
-- internal/optimize/analyze.go: the failure patterns of a set of runs. A run without a trace reads as
-- one without events. The code visits its map of patterns in no fixed order before it sorts them; here
-- they come in the order in which they were first noted.
pub mod Patterns
use harnesslab.Runtime.{RunEvent}
use harnesslab.Diff.Steps.{StepType, model, tool, error, Step, build_steps}
use harnesslab.Store.{Metrics, Run}
use harnesslab.Shared.Float.{Floats}
use harnesslab.Shared.Int64.{slt64}
use harnesslab.Shared.Scan.{contains}
use harnesslab.Shared.Sorting.{sort_slice}
use harnesslab.Shared.{
  ℕ, ◌+◌, ltb, leb, String, Bool, true, false, not, ◌&&◌, ◌||◌, List, [], ◌∷◌, ◌++◌, Bytes, bytes,
  bytes_eq, ◌==◌, string_eq, nat_eq, if◌then◌else◌, length, count,
}

abbrev pub high_token_threshold : ℕ
high_token_threshold = 10000

pub record Pattern : Type 0 where
  pub id : String
  pub label : String
  pub count : ℕ
  pub runs : List String

pub record Analysis : Type 0 where
  pub runs : ℕ
  pub patterns : List Pattern
  pub candidates : List String

abbrev is_tool : StepType → Bool
is_tool tool = true
is_tool _ = false

abbrev is_error_step : StepType → Bool
is_error_step error = true
is_error_step _ = false

-- `seen` has the keys of the tool steps so far, each as often as `counts` says.
abbrev repeated_after : List Bytes → List Step → Bool
repeated_after seen [] = false
repeated_after seen (s ∷ ss) =
    let key = s.name ++ (0 ∷ s.args) in
    let later = repeated_after (key ∷ seen) ss in
    let other = repeated_after seen ss in
    if is_tool s.type
    then (if leb 2 (count (λ k. k == key) (key ∷ seen)) then true else later)
    else other

unfoldable pub has_repeated_tool : List Step → Bool
has_repeated_tool steps = repeated_after [] steps

unfoldable pub has_tool_failure : List Step → Bool
has_tool_failure [] = false
has_tool_failure (s ∷ ss) =
    let rest = has_tool_failure ss in
    if is_tool s.type && contains s.result (bytes "\"exit_code\":1") then true else rest

unfoldable pub has_error_step : List Step → Bool
has_error_step [] = false
has_error_step (s ∷ ss) =
    let rest = has_error_step ss in if is_error_step s.type then true else rest

-- One call of `note`.
pub record Note : Type 0 where
  pub id : String
  pub label : String
  pub run : String

abbrev note_if : Bool → String → String → String → List Note
note_if b id label run = if b then record { id = id; label = label; run = run } ∷ [] else []

unfoldable pub note : Note → List Pattern → List Pattern
note n [] = record { id = n.id; label = n.label; count = 1; runs = n.run ∷ [] } ∷ []
note n (p ∷ ps) =
    if p.id == n.id
    then record p { count = p.count + 1; runs = p.runs ++ n.run ∷ [] } ∷ ps
    else p ∷ note n ps

unfoldable pub note_all : List Note → List Pattern → List Pattern
unfolding note
note_all [] ps = ps
note_all (n ∷ ns) ps = note_all ns (note n ps)

unfoldable pub candidate_for : String → String
candidate_for id =
    if id == "no_tools"
    then "Consider adding shell/filesystem tools or stronger tool-use instructions if the task requires repository access."
    else if id == "no_change"
    then "Require workspace changes (success.require_workspace_change) so text-only hallucinated answers fail the run."
    else if id == "repeated_tool"
    then "Add a duplicate-command guard (skip identical tool calls with unchanged args) to the harness."
    else if id == "high_tokens"
    then "Enable summary/adaptive context or reduce injected context to contain token usage."
    else if id == "tool_failure"
    then "Add verification-after-edit guidance or a command retry policy for failing commands."
    else if id == "trajectory_error"
    then "Increase retry limits (spec.retry) or add a fallback model (model failover)."
    else ""

unfoldable pub candidates_for : List Pattern → List String
unfolding candidate_for
candidates_for [] = []
candidates_for (p ∷ ps) =
    let rest = candidates_for ps in
    if candidate_for p.id == "" then rest else candidate_for p.id ∷ rest

-- More frequent patterns come first.
abbrev pub more_frequent : Pattern → Pattern → Bool
more_frequent p q = ltb q.count p.count

module _ (F : Floats) (traces : String → List RunEvent) where
  -- The notes on one run, in order.
  unfoldable pub notes_of : Run F → List Note
  unfolding has_repeated_tool has_tool_failure has_error_step build_steps
  notes_of r =
      let steps = build_steps (traces r.id) in
      note_if (r.metrics.tool_calls == 0) "no_tools" "no tool calls — agent answered from knowledge"
        r.id
      ++ (note_if (slt64 high_token_threshold r.metrics.input_tokens) "high_tokens"
            "input tokens above threshold (context explosion)" r.id
          ++ (note_if (not (r.repository == "") && not r.metrics.workspace_changed) "no_change"
                "repository task without workspace changes — likely hallucinated output" r.id
              ++ (note_if (has_repeated_tool steps) "repeated_tool"
                    "identical tool call repeated in the same trajectory" r.id
                  ++ (note_if (has_tool_failure steps) "tool_failure"
                        "tool result reports a failing command (exit_code 1)" r.id
                      ++ note_if (has_error_step steps) "trajectory_error"
                          "trajectory contains an error step" r.id))))

  unfoldable pub gather : List (Run F) → List Pattern → List Pattern
  unfolding notes_of note_all
  gather [] ps = ps
  gather (r ∷ rs) ps = gather rs (note_all (notes_of r) ps)

  unfoldable pub analyze : List (Run F) → Analysis
  unfolding gather candidates_for
  analyze runs =
      let patterns = sort_slice more_frequent (gather runs []) in
      record { runs = length runs; patterns = patterns; candidates = candidates_for patterns }
