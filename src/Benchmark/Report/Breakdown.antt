-- ===== src/Benchmark/Report/Breakdown.antt =====
-- internal/benchmark/report.go: `Finalize`, the statistics and the breakdown by task. Names of variants
-- are compared by their bytes. The map of `buildByTask` and the order in which its keys were met are
-- one list here.
use harnesslab.Benchmark.Report.{RunSummary, VariantResult, status_passed}
use harnesslab.Benchmark.Stats.{Arithmetic, Stats, zero_stat, compute_stat}
use harnesslab.Shared.Float.{Floats}
use harnesslab.Shared.Lexical.{bytes_ltb}
use harnesslab.Shared.Sorting.{sort_slice}
use harnesslab.Shared.Panics.{◌>>=◌, map_all}
use harnesslab.Shared.{
  ℕ, ◌+◌, String, Bool, not, Option, some, List, [], ◌∷◌, ◌==◌, string_eq, if◌then◌else◌, bytes,
  map, keep,
}

module _ (F : Floats) (A : Arithmetic F) where
  open F use {Float}

  -- A task's counters while the runs are read.
  pub record Tally : Type 0 where
    pub task_id : String
    pub total : ℕ
    pub passed : ℕ

  pub record TaskResult : Type 0 where
    pub tally : Tally
    pub stats : Stats F A

  abbrev pub was_passed : RunSummary F → Bool
  was_passed r = status_passed F r.status

  abbrev pub one_passed : Bool → ℕ
  one_passed b = if b then 1 else 0

  unfoldable pub bump : RunSummary F → List Tally → List Tally
  bump r [] = record { task_id = r.task_id; total = 1; passed = one_passed (was_passed r) } ∷ []
  bump r (t ∷ ts) =
      if t.task_id == r.task_id
      then record t { total = t.total + 1; passed = t.passed + one_passed (was_passed r) } ∷ ts
      else t ∷ bump r ts

  unfoldable pub tallies : List (RunSummary F) → List Tally → List Tally
  unfolding bump
  tallies [] ts = ts
  tallies (r ∷ rs) ts = tallies rs (if r.task_id == "" then ts else bump r ts)

  -- The runs that were executed, for a task if one is given.
  abbrev pub executed : List (RunSummary F) → List (RunSummary F)
  executed runs = keep (λ r. not (r.run_id == "")) runs

  abbrev pub of_task : String → List (RunSummary F) → List (RunSummary F)
  of_task id runs = keep (λ r. r.task_id == id) runs

  abbrev pub input_values : List (RunSummary F) → List Float
  input_values runs = map (λ r. A.of_int r.input_tokens) runs

  abbrev pub output_values : List (RunSummary F) → List Float
  output_values runs = map (λ r. A.of_int r.output_tokens) runs

  abbrev pub cost_values : List (RunSummary F) → List Float
  cost_values runs = map (λ r. r.cost_usd) runs

  abbrev pub latency_values : List (RunSummary F) → List Float
  latency_values runs = map (λ r. A.of_int r.duration_ms) runs

  unfoldable pub stats_of : List (RunSummary F) → Option (Stats F A)
  stats_of runs = do
    let done = executed runs
    input ← compute_stat F A (input_values done)
    output ← compute_stat F A (output_values done)
    cost ← compute_stat F A (cost_values done)
    latency ← compute_stat F A (latency_values done)
    some (record {
      input_tokens = input;
      output_tokens = output;
      cost_usd = cost;
      latency_ms = latency;
    })

  unfoldable pub task_result : List (RunSummary F) → Tally → Option TaskResult
  task_result runs t = do
    let done = of_task t.task_id (executed runs)
    input ← compute_stat F A (input_values done)
    cost ← compute_stat F A (cost_values done)
    latency ← compute_stat F A (latency_values done)
    some (record {
      tally = t;
      stats = record {
        input_tokens = input;
        output_tokens = zero_stat F A;
        cost_usd = cost;
        latency_ms = latency;
      };
    })

  unfoldable pub build_by_task : List (RunSummary F) → Option (List TaskResult)
  unfolding tallies task_result
  build_by_task runs = map_all (task_result runs) (tallies runs [])

  pub record FinalVariant : Type 0 where
    pub result : VariantResult F
    pub stats : Stats F A
    pub by_task : List TaskResult

  unfoldable pub final_variant : VariantResult F → Option FinalVariant
  unfolding build_by_task stats_of
  final_variant v = do
    tasks ← build_by_task v.runs
    stats ← stats_of v.runs
    some (record { result = v; stats = stats; by_task = tasks })

  abbrev pub by_variant : FinalVariant → FinalVariant → Bool
  by_variant v w = bytes_ltb (bytes v.result.variant) (bytes w.result.variant)

  -- The report's variants after `Finalize`.
  unfoldable pub finalize : List (VariantResult F) → Option (List FinalVariant)
  unfolding final_variant
  finalize vs = do final ← map_all final_variant vs; some (sort_slice by_variant final)
