-- ===== src/Builder.antt =====
-- internal/harness/builder/builder.go: `Run`, from the events of the runtime to the record that is
-- persisted. What the runtime, the sandbox and the workspace answer is a parameter, as are the
-- clock and whether the store accepts the first update. The recorder, the event sink and `onEvent`
-- only receive the events, and a replayed patch only changes what the sandbox and the workspace
-- answer.
pub mod Tally
mod Tests
pub mod Agreement
pub mod Passing
pub mod Stored
mod StoredTests
pub mod Interrupted
mod Surroundings
pub mod Build
use harnesslab.Runtime.{RunEvent, EventType, ModelEvent}
use harnesslab.Store.{
  Status, passed, failed, error, cancelled, CommandResult, VerificationResult, Metrics, no_metrics,
  Run,
}
use harnesslab.Spec.Types.{VerificationSpec, SuccessSpec}
use harnesslab.Spec.Access.{require_verification, require_change}
use harnesslab.Shared.Float.{Floats}
use harnesslab.Shared.Int64.{add64}
use harnesslab.Shared.Scan.{trim_space, has_prefix, split_at}
use harnesslab.Shared.{
  ℕ, ◌+◌, String, Bool, true, false, not, ◌&&◌, ◌||◌, Option, none, some, List, [], ◌∷◌, ◌++◌,
  Bytes, bytes, bytes_eq, string_eq, nat_eq, ◌==◌, leb, ltb, length, take, if◌then◌else◌,
}

-- `sandbox.Result`, with whether there was an error.
pub record SandboxResult : Type 0 where
  pub exit_code : ℕ
  pub output : Bytes
  pub erred : Bool

-- `workspace.Diff`
pub record WorkspaceDiff : Type 0 where
  pub patch : Bytes
  pub stat : Bytes
  pub untracked : List Bytes

unfoldable pub changed : Option WorkspaceDiff → Bool
changed none = false
changed (some d) =
    not (trim_space d.patch == []) || not (trim_space d.stat == []) || ltb 0 (length d.untracked)

-- `clip` of the builder.
unfoldable pub clip_output : Bytes → Bytes
clip_output b = let s = trim_space b in if ltb 600 (length s) then take 600 s ++ bytes "..." else s

abbrev count_line : Bytes → ℕ × ℕ → ℕ × ℕ
count_line line (p, f) =
    if has_prefix line (bytes "--- PASS:")
    then (p + 1, f)
    else if has_prefix line (bytes "--- FAIL:")
    then (p, f + 1)
    else (p, f)

abbrev pub count_lines : List Bytes → ℕ × ℕ → ℕ × ℕ
count_lines [] n = n
count_lines (line ∷ lines) n = count_lines lines (count_line (trim_space line) n)

unfoldable pub count_tests : Bytes → ℕ × ℕ
count_tests output = count_lines (split_at b'\n' output) (0, 0)

module _ (sandbox : ℕ → String → SandboxResult) where
  -- One round of the loop over the commands; `k` counts them.
  unfoldable pub verify_command : ℕ → String → VerificationResult → VerificationResult
  unfolding count_tests clip_output
  verify_command k cmd ver =
      let res = sandbox k cmd in
      let (p, f) = count_tests res.output in
      record ver {
        commands =
            ver.commands
            ++ record {
              command = cmd;
              passed = not res.erred;
              exit_code = res.exit_code;
              output = clip_output res.output;
            }
              ∷ [];
        passed = if not res.erred then ver.passed else false;
        tests_passed = ver.tests_passed + p;
        tests_failed = ver.tests_failed + f;
      }

  unfoldable pub verify_commands : ℕ → List String → VerificationResult → VerificationResult
  unfolding verify_command
  verify_commands k [] ver = ver
  verify_commands k (cmd ∷ cmds) ver = verify_commands (k + 1) cmds (verify_command k cmd ver)

  abbrev pub new_verification : VerificationResult
  new_verification = record {
    passed = true;
    commands = [];
    workspace_changed = false;
    tests_passed = 0;
    tests_failed = 0;
    duration_ms = 0;
  }

  unfoldable pub verify_result : ℕ → VerificationSpec → Option VerificationResult
  unfolding verify_commands
  verify_result elapsed v =
      if v.strategy == "none" || length v.commands == 0
      then none
      else some (record (verify_commands 0 v.commands new_verification) { duration_ms = elapsed })

abbrev pub verified : Option VerificationResult → Bool
verified none = true
verified (some ver) = ver.passed

unfoldable pub compute_status :
    Bool → Option VerificationResult → Bool → Bool → Bool → Bool → Status
compute_status errored ver workspace_changed verification change was_cancelled =
    if was_cancelled
    then cancelled
    else if errored
    then failed
    else if verification && not (verified ver)
    then failed
    else if change && not workspace_changed
    then failed
    else passed

-- `status == store.StatusPassed`
abbrev pub is_passed : Status → Bool
is_passed passed = true
is_passed _ = false

abbrev pub mark_changed : Bool → Option VerificationResult → Option VerificationResult
mark_changed b none = none
mark_changed b (some ver) = some (record ver { workspace_changed = b })

module _ (F : Floats) where
  open F use {Float}

  -- The metrics, and whether the agent reported an error.
  abbrev pub Tallied : Type 0
  Tallied = Metrics F × Bool

  abbrev pub add_usage : Option ModelEvent → Metrics F → Metrics F
  add_usage none m = m
  add_usage (some e) m = record m {
    input_tokens = add64 m.input_tokens e.tokens_in;
    output_tokens = add64 m.output_tokens e.tokens_out;
  }

  abbrev pub tally_type : EventType → RunEvent → Tallied → Tallied
  tally_type EventType.model_end ev (m, errored) =
      (add_usage ev.model (record m { model_calls = m.model_calls + 1 }), errored)
  tally_type EventType.tool_start ev (m, errored) =
      (record m { tool_calls = m.tool_calls + 1 }, errored)
  tally_type EventType.error ev (m, errored) = (m, true)
  tally_type _ ev s = s

  unfoldable pub tally : List RunEvent → Tallied → Tallied
  tally [] s = s
  tally (ev ∷ evs) s = tally evs (tally_type ev.type ev s)

  -- What the rest of the program answers during a run.
  pub record World : Type 0 where
    pub stored : Bool
    pub events : Option (List RunEvent)
    pub sandbox : ℕ → String → SandboxResult
    pub diff : Option WorkspaceDiff
    pub was_cancelled : Bool
    pub elapsed : ℕ
    pub verify_elapsed : ℕ
    pub finished : ℕ
    pub cost : Option (ℕ → ℕ → Float)

  abbrev cost_or : Option (ℕ → ℕ → Float) → Metrics F → Float
  cost_or none m = m.cost_usd
  cost_or (some price) m = price m.input_tokens m.output_tokens

  abbrev stamp : Option (ℕ → ℕ → Float) → Metrics F → Metrics F
  stamp cost m = record m { cost_usd = cost_or cost m }

  abbrev patch_of : Option WorkspaceDiff → Bytes → Bytes
  patch_of none old = old
  patch_of (some d) old = d.patch

  abbrev verification_of : Option VerificationResult → VerificationResult → VerificationResult
  verification_of none old = old
  verification_of (some ver) old = ver

  -- `finish`: the record that it hands to the store.
  unfoldable pub finish :
      World → Status → Metrics F → Option WorkspaceDiff → Option VerificationResult → Run F → Run F
  finish w status metrics diff ver r = record r {
    status = status;
    metrics = stamp w.cost metrics;
    finished_at = w.finished;
    workspace_patch = patch_of diff r.workspace_patch;
    verification = verification_of ver r.verification;
  }

  pub data Ending : Type 0 where
    -- The store refused the first update.
    not_stored : Ending
    -- The runtime did not start; the record that is persisted.
    not_started : Run F → Ending
    finished : Run F → Ending

  -- The part of `Run` after the events.
  unfoldable pub conclude : World → VerificationSpec → SuccessSpec → List RunEvent → Run F → Run F
  unfolding tally verify_result compute_status finish changed
  conclude w v success evs r =
      let (m, errored) = tally evs (no_metrics F, false) in
      let b = changed w.diff in
      let ver = mark_changed b (verify_result w.sandbox w.verify_elapsed v) in
      let status =
        compute_status errored ver b (require_verification (some success))
          (require_change (some success)) w.was_cancelled in
      finish w status
        (record m {
          duration_ms = w.elapsed;
          verification_passed = verified ver;
          workspace_changed = b;
          success = is_passed status;
        })
        w.diff ver r

  unfoldable pub run : World → VerificationSpec → SuccessSpec → String → Run F → Ending
  unfolding conclude
  run w v success task r = if not w.stored then not_stored else elim w.events [
    | none ↦ not_started (finish w error (no_metrics F) none none (record r { task = task }))
    | some evs ↦ finished (conclude w v success evs (record r { task = task }))
  ]
