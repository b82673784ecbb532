-- ===== src/Builder/Passing.antt =====
-- internal/harness/builder/builder.go: which runs pass.
use harnesslab.Runtime.{RunEvent}
use harnesslab.Store.{VerificationResult, no_metrics, Run}
use harnesslab.Spec.Types.{VerificationSpec, SuccessSpec}
use harnesslab.Spec.Access.{require_verification, require_change}
use harnesslab.Builder.{
  SandboxResult, changed, verify_command, verify_commands, new_verification, verify_result,
  verified, is_passed, mark_changed, compute_status, World, tally, finish, conclude,
}
use harnesslab.Builder.Tally.{is_error, tally-Adds}
use harnesslab.Shared.Float.{Floats}
use harnesslab.Shared.{
  ℕ, ◌+◌, String, ◌≡◌, refl, ◌∙◌, Bool, true, false, not, ◌&&◌, ◌||◌, Option, none, some, List, [],
  ◌∷◌, ◌==◌, string_eq, nat_eq, length, any, arith,
}

module _ (sandbox : ℕ → String → SandboxResult) where
  -- Every command from the `k`-th on succeeds.
  abbrev pub all_succeed : ℕ → List String → Bool
  all_succeed k [] = true
  all_succeed k (cmd ∷ cmds) = not (sandbox k cmd).erred && all_succeed (k + 1) cmds

  verify_commands-passed :
      (k : ℕ) (cmds : List String) (ver : VerificationResult)
      → (verify_commands sandbox k cmds ver).passed ≡ (ver.passed && all_succeed k cmds)
  unfolding verify_commands
  verify_commands-passed k [] ver = ground arith
  verify_commands-passed k (cmd ∷ cmds) ver =
      ground (arith, verify_commands-passed (k + 1) cmds (verify_command sandbox k cmd ver))

  -- There is nothing to verify, or every command of the verification succeeds.
  abbrev pub satisfied : VerificationSpec → Bool
  satisfied v = v.strategy == "none" || length v.commands == 0 || all_succeed 0 v.commands

  -- The verification passes exactly if there is nothing to verify or every command succeeds.
  pub verify_result-satisfied :
      (elapsed : ℕ) (v : VerificationSpec)
      → verified (verify_result sandbox elapsed v) ≡ satisfied v
  unfolding verify_result
  verify_result-satisfied elapsed v =
      ground (arith, verify_commands-passed 0 v.commands (new_verification sandbox))

-- The harness's success rules: not cancelled, no error event, the verification passed where it is
-- required, and the workspace changed where that is required.
compute_status-passed :
    (errored : Bool) (ver : Option VerificationResult) (b verification change was_cancelled : Bool)
    → is_passed (compute_status errored ver b verification change was_cancelled) ≡ (
        not was_cancelled && not errored && (not verification || verified ver) && (not change || b))
unfolding compute_status
compute_status-passed errored ver b verification change was_cancelled = ground arith

verified-mark_changed :
    (b : Bool) (ver : Option VerificationResult) → verified (mark_changed b ver) ≡ verified ver
verified-mark_changed b none = refl
verified-mark_changed b (some ver) = refl

module _ (F : Floats) where
  -- A run whose runtime has started is recorded as passed exactly if it was not cancelled, its trace
  -- has no error event, every verification command succeeded (where the success rules require that
  -- and there are commands), and the workspace changed (where they require that).
  pub conclude-passed :
      (w : World F) (v : VerificationSpec) (success : SuccessSpec) (evs : List RunEvent) (r : Run F)
      → is_passed (conclude F w v success evs r).status ≡ (
          not w.was_cancelled
          && not (any is_error evs)
          && (not (require_verification (some success)) || satisfied w.sandbox v)
          && (not (require_change (some success)) || changed w.diff))
  unfolding conclude finish
  conclude-passed w v success evs r =
      let ver = verify_result w.sandbox w.verify_elapsed v in
      let b = changed w.diff in
      ground (
        arith,
        compute_status-passed (tally F evs (no_metrics F, false)).1 (mark_changed b ver) b
            (require_verification (some success)) (require_change (some success)) w.was_cancelled,
        verified-mark_changed b ver,
        verify_result-satisfied w.sandbox w.verify_elapsed v,
        (tally-Adds F evs (no_metrics F) false).errored,
      )

  -- The record's metrics and status agree on success, and the verification flag of the metrics says
  -- that there was nothing to verify or that every command succeeded.
  pub conclude-metrics :
      (w : World F) (v : VerificationSpec) (success : SuccessSpec) (evs : List RunEvent) (r : Run F)
      → (let done = conclude F w v success evs r in
          (done.metrics.success ≡ is_passed done.status)
          × (done.metrics.verification_passed ≡ satisfied w.sandbox v)
          × (done.metrics.workspace_changed ≡ changed w.diff))
  unfolding conclude finish
  conclude-metrics w v success evs r =
      let ver = verify_result w.sandbox w.verify_elapsed v in
      (
        refl,
        verified-mark_changed (changed w.diff) ver
            ∙ verify_result-satisfied w.sandbox w.verify_elapsed v,
        refl,
      )
