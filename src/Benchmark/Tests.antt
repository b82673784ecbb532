-- ===== src/Benchmark/Tests.antt =====
-- internal/benchmark: runs on small inputs. Jobs and outcomes are numbers here, and an outcome is
-- the tokens that it spends.
use harnesslab.Benchmark.Pool.{Readings, Producer, Pool, Reach, start}
use harnesslab.Benchmark.Pool.Hang.{IsStranded, AllExited, never_returns, budget_hang}
use harnesslab.Benchmark.Report.{Outcome, new_variant, add_outcomes}
use harnesslab.Benchmark.Report.Grouping.{entry_of, outcomes_of, record_all, add_outcomes-grouped}
use harnesslab.Benchmark.Report.Totals.{Counts, add_outcomes-Counts}
use harnesslab.Store.{Status, passed, failed, no_metrics}
use harnesslab.Shared.Float.{whole_floats}
use harnesslab.Benchmark.Pool.{Worker, Step, Move}
use harnesslab.Benchmark.Pool.Retry.{erred_jobs, failed-erred_jobs}
use harnesslab.Shared.{
  Bool, true, ◌==◌, nat_eq, none, some, String, ◌+◌, ◌≡◌, ℕ, refl, false, List, [], ◌∷◌, here,
}
use harnesslab.Shared.Int64.{slt64, sle64, add64}

abbrev readings : Readings ℕ
readings = record { tokens_of = λ o. o; errored = λ o. false }

abbrev jobs : List ℕ
jobs = 1 ∷ 2 ∷ 3 ∷ 4 ∷ 5 ∷ []

budget_hang_example : (s : Pool ℕ ℕ) × Reach readings 100 (start 2 jobs) s × IsStranded s
unfolding slt64 sle64 add64
budget_hang_example = budget_hang readings 100 0 1 2 3 4 (5 ∷ []) 150 20 refl refl

abbrev stranded : Pool ℕ ℕ
stranded = record (start 1 (6 ∷ [])) { producer = Producer.returned }

stranded-IsStranded : IsStranded stranded
stranded-IsStranded = record { gone = refl; left_open = refl; stuck = here refl }

never_returns_example : ¬ AllExited stranded.workers
never_returns_example = never_returns readings 100 stranded-IsStranded Reach.here

abbrev outcome : String → Status → Outcome whole_floats
outcome variant status = record {
  job = some (record { id = "j"; task_id = some "t"; variant = variant; repeat = 0 });
  run_id = "r";
  status = some status;
  metrics = record (no_metrics whole_floats) { input_tokens = 10 };
  error = none;
}

abbrev outcomes : List (Outcome whole_floats)
outcomes =
    outcome "a" passed
    ∷ outcome "b" failed
    ∷ record (outcome "a" failed) { error = some "build" }
    ∷ []

abbrev total : whole_floats.Float → whole_floats.Float → whole_floats.Float
unfolding whole_floats
total x y = x + y

add_outcomes-grouped_example :
    entry_of whole_floats "a" (add_outcomes whole_floats total outcomes [])
    ≡ record_all whole_floats total
        (outcomes_of whole_floats "a" outcomes)
        (new_variant whole_floats "a")
add_outcomes-grouped_example = add_outcomes-grouped whole_floats total "a" outcomes

add_outcomes-Counts_example :
    Counts whole_floats
      (outcomes_of whole_floats "a" outcomes)
      (new_variant whole_floats "a")
      (entry_of whole_floats "a" (add_outcomes whole_floats total outcomes []))
add_outcomes-Counts_example = add_outcomes-Counts whole_floats total "a" outcomes

-- Every outcome is an error.
abbrev failing : Readings ℕ
failing = record { tokens_of = λ o. o; errored = λ o. true }

-- One worker has run its only job.
abbrev settled_pool : Pool ℕ ℕ
settled_pool = record {
  workers = Worker.waiting ∷ [];
  producer = Producer.closing;
  closed = false;
  stop = false;
  cancelled = false;
  tokens = 20;
  reported = (7, 20) ∷ [];
  failed = 7 ∷ [];
  dropped = [];
}

one_run : Reach failing 0 (start 1 (7 ∷ [])) settled_pool
unfolding slt64 sle64 add64
one_run =
    Reach.later
      (Reach.later
        (Reach.later
          (Reach.later
            (Reach.later
              (Reach.later
                (Reach.later (Reach.later Reach.here (Step.pass refl refl)) (Step.ready refl refl))
                (Step.hand_over [] [] refl refl))
              (Step.work [] [] refl (Move.begin refl)))
            (Step.work [] [] refl (Move.outcome 20)))
          (Step.work [] [] refl Move.add))
        (Step.work [] [] refl Move.budget))
      (Step.work [] [] refl Move.settle)

abbrev is_seven : ℕ → Bool
is_seven j = j == 7

failed-erred_jobs_example : settled_pool.failed ≡ erred_jobs failing settled_pool.reported
failed-erred_jobs_example = failed-erred_jobs failing 0 1 (7 ∷ []) settled_pool one_run
