-- ===== src/Benchmark/Scheduler/Ablation.antt =====
-- internal/benchmark: the baseline without verification, from the matrix through the scheduler to the
-- builder.
use harnesslab.Benchmark.Matrix.{set_verification}
use harnesslab.Benchmark.Scheduler.{BenchJob, job_spec}
use harnesslab.Builder.{SandboxResult, verify_result}
use harnesslab.Spec.Types.{VerificationSpec, HarnessSpec}
use harnesslab.Shared.Float.{Floats}
use harnesslab.Shared.{
  ℕ, String, ◌≡◌, refl, Bool, true, false, none, string_eq, nat_eq, ◌==◌, ◌||◌, ◌&&◌, not, ltb,
  length, if-cases,
}

and_false : (b : Bool) → (b && false) ≡ false
and_false true = refl
and_false false = refl

-- The task asks for a verification.
abbrev asked : VerificationSpec → Bool
asked v = not (v.strategy == "") || ltb 0 (length v.commands)

module _ (F : Floats) where
  -- A job whose variant switches verification off is not verified, whatever its task asks for: no
  -- command of the task and none of the base specification is run.
  pub job_spec-unverified :
      (base : HarnessSpec F) (job : BenchJob F) (sandbox : ℕ → String → SandboxResult) (elapsed : ℕ)
      → job.variant.spec ≡ set_verification F "none" base
      → verify_result sandbox elapsed (job_spec F job).verification ≡ none
  unfolding job_spec verify_result
  job_spec-unverified base job sandbox elapsed e = rw e (
      if-cases (λ v. verify_result sandbox elapsed v ≡ none) (asked job.task.verification && false)
        (λ h. let no = and_false (asked job.task.verification) in cc) (λ _. refl))
