-- ===== src/Benchmark/Scheduler/Tests.antt =====
-- internal/benchmark/scheduler.go: three waves over a job that fails each time.
use harnesslab.Benchmark.Pool.{Readings, Worker, Producer, Pool, Step, Move, Reach, start}
use harnesslab.Benchmark.Matrix.{set_verification}
use harnesslab.Benchmark.Task.Tests.{task}
use harnesslab.Benchmark.Scheduler.{BenchJob, Reported, run_jobs}
use harnesslab.Benchmark.Scheduler.Waves.{reports_on, run_jobs-bounded}
use harnesslab.Builder.{SandboxResult}
use harnesslab.Spec.Tests.{minimal}
use harnesslab.Shared.Float.{whole_floats}
use harnesslab.Shared.Int64.{slt64, sle64, add64}
use harnesslab.Shared.{
  arith, ℕ, suc, ◌*◌, ◌≤◌, ◌≡◌, refl, String, Bool, true, false, some, List, [], ◌∷◌, nat_eq, ◌==◌,
  count, bytes,
}

-- Every outcome is an error.
abbrev failing : Readings ℕ
failing = record { tokens_of = λ o. o; errored = λ o. true }

-- One worker has run its only job, and spent 20 tokens.
abbrev settled_one : ℕ → Pool ℕ ℕ
settled_one j = record {
  workers = Worker.waiting ∷ [];
  producer = Producer.closing;
  closed = false;
  stop = false;
  cancelled = false;
  tokens = 20;
  reported = (j, 20) ∷ [];
  failed = j ∷ [];
  dropped = [];
}

-- A wave of one job runs it; one of more jobs has only been started.
abbrev batch : ℕ → List ℕ → Pool ℕ ℕ
batch k [] = start 1 []
batch k (j ∷ []) = settled_one j
batch k (j ∷ i ∷ js) = start 1 (j ∷ i ∷ js)

batch_reached : (k : ℕ) (jobs : List ℕ) → Reach failing 0 (start 1 jobs) (batch k jobs)
unfolding slt64 sle64 add64
batch_reached k [] = Reach.here
batch_reached k (j ∷ []) =
    Reach.later
      (Reach.later
        (Reach.later
          (Reach.later
            (Reach.later
              (Reach.later
                (Reach.later (Reach.later Reach.here (Step.pass refl refl)) (Step.ready refl refl))
                (Step.hand_over [] [] refl refl))
              (Step.work [] [] refl (Move.begin refl)))
            (Step.work [] [] refl (Move.outcome 20)))
          (Step.work [] [] refl Move.add))
        (Step.work [] [] refl Move.budget))
      (Step.work [] [] refl Move.settle)
batch_reached k (j ∷ i ∷ js) = Reach.here

abbrev never : ℕ → Bool
never k = false

abbrev thrice : Reported ℕ ℕ
thrice = record { waves = 3; outcomes = (7, 20) ∷ (7, 20) ∷ (7, 20) ∷ [] }

three_waves : run_jobs never batch 2 3 (7 ∷ []) ≡ some thrice
unfolding run_jobs sle64
three_waves = refl

abbrev is_seven : ℕ → Bool
is_seven j = j == 7

run_jobs-bounded_example :
    (run_jobs never batch 2 9 (7 ∷ []) ≡ some thrice)
    × (thrice.waves ≤ suc 2)
    × (reports_on failing is_seven thrice.outcomes ≤ suc 2 * count is_seven (7 ∷ []))
run_jobs-bounded_example =
    run_jobs-bounded failing is_seven 0 1 never batch 2 batch_reached (omega arith) 3 9 (7 ∷ [])
      thrice (omega arith) (omega arith) three_waves

abbrev unverified : BenchJob whole_floats
unverified = record {
  id = "j";
  task = task;
  variant = record { name = bytes "h0"; spec = set_verification whole_floats "none" minimal };
  repeat = 0;
}

abbrev silent : ℕ → String → SandboxResult
silent k cmd = record { exit_code = 0; output = []; erred = false }
