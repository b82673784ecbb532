-- ===== src/Benchmark/Scheduler.antt =====
-- internal/benchmark/scheduler.go: `NewScheduler`, `Run` and `runJob`. A wave is a run of the pool: its
-- final state is a parameter, and so is whether the context has ended when a wave is due. What
-- `builder.Build` and `Run` of the harness answer is a parameter too.
pub mod Waves
pub mod Ablation
mod Tests
use harnesslab.Benchmark.Pool.{Pool}
use harnesslab.Benchmark.Task.{Task}
use harnesslab.Benchmark.Matrix.{Variant}
use harnesslab.Benchmark.Report.{Job, Outcome}
use harnesslab.Spec.Types.{VerificationSpec, HarnessSpec}
use harnesslab.Spec.Access.{is_set}
use harnesslab.Store.{Status, Metrics, Run, no_metrics}
use harnesslab.Shared.Float.{Floats}
use harnesslab.Shared.Int64.{sle64}
use harnesslab.Shared.{
  ℕ, zero, suc, ◌+◌, String, Bool, true, false, not, ◌&&◌, ◌||◌, Option, none, some, List, [], ◌∷◌,
  ◌++◌, Bytes, string_eq, nat_eq, ◌==◌, ltb, length, if◌then◌else◌, ◌⊎◌, inl, inr,
}

pub record Options : Type 0 where
  pub parallel : ℕ
  pub max_tokens : ℕ
  pub timeout : ℕ
  pub retry : ℕ

unfoldable pub new_scheduler : Options → Options
unfolding sle64
new_scheduler opts = record opts { parallel = if sle64 opts.parallel 0 then 2 else opts.parallel }

-- How many waves ran, and what they reported.
pub record Reported (J O : Type 0) : Type 0 where
  pub waves : ℕ
  pub outcomes : List (J × O)

-- The condition of the loop over the waves, and the check of the context in it.
unfoldable pub going : {J : Type 0} → (ℕ → Bool) → ℕ → ℕ → List J → Bool
unfolding sle64
going ended retry attempt current =
    ltb 0 (length current) && sle64 attempt retry && not (ended attempt)

module _ {J O : Type 0} (ended : ℕ → Bool) (batch : ℕ → List J → Pool J O) (retry : ℕ) where
  -- The loop over the waves from the attempt on.
  unfoldable pub run_waves : ℕ → ℕ → List J → List (J × O) → Reported J O
  unfolding going
  run_waves zero attempt current reported = record { waves = attempt; outcomes = reported }
  run_waves (suc fuel) attempt current reported =
      let wave = batch attempt current in
      let rest = run_waves fuel (attempt + 1) wave.failed (reported ++ wave.reported) in
      if going ended retry attempt current
      then rest
      else record { waves = attempt; outcomes = reported }

  -- `Run`, up to the report, on fuel; `none` is the error for no jobs.
  unfoldable pub run_jobs : ℕ → List J → Option (Reported J O)
  unfolding run_waves
  run_jobs fuel jobs = if length jobs == 0 then none else some (run_waves fuel 0 jobs [])

module _ (F : Floats) where
  pub record BenchJob : Type 0 where
    pub id : String
    pub task : Task
    pub variant : Variant F
    pub repeat : ℕ

  -- The task's verification, unless it is empty or the harness has its own switched off.
  abbrev overrides : VerificationSpec → VerificationSpec → Bool
  overrides task harness =
      (not (task.strategy == "") || ltb 0 (length task.commands))
      && not (harness.strategy == "none")

  -- `spec2`, the specification that the job's harness is built from.
  unfoldable pub job_spec : BenchJob → HarnessSpec F
  unfolding is_set
  job_spec job =
      let s = job.variant.spec in
      let t = job.task in
      record s {
        verification =
            if overrides t.verification s.verification then t.verification else s.verification;
        success = if is_set (some t.success) then t.success else s.success;
      }

  -- A harness that was built: its run id, and what `Run` answers for a prompt.
  pub record Built : Type 0 where
    pub run_id : String
    pub run : String → String ⊎ Run F

  abbrev outcome_of : Option Job → String → String ⊎ Run F → Outcome F
  outcome_of job run_id (inl e) = record {
    job = job;
    run_id = run_id;
    status = none;
    metrics = no_metrics F;
    error = some e;
  }
  outcome_of job run_id (inr r) = record {
    job = job;
    run_id = run_id;
    status = some r.status;
    metrics = r.metrics;
    error = none;
  }

  module _ (job_entry : BenchJob → Job) (build : HarnessSpec F → Task → String ⊎ Built) where
    abbrev run_built : BenchJob → String ⊎ Built → Outcome F
    run_built job (inl e) = outcome_of (some (job_entry job)) "" (inl e)
    run_built job (inr h) = outcome_of (some (job_entry job)) h.run_id (h.run job.task.prompt)

    unfoldable pub run_job : BenchJob → Outcome F
    unfolding job_spec
    run_job job = run_built job (build (job_spec job) job.task)
