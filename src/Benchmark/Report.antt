-- ===== src/Benchmark/Report.antt =====
-- internal/benchmark/report.go: how outcomes are folded into a report. `add` is the sum of float64.
pub mod Grouping
pub mod Totals
pub mod Breakdown
pub mod Finalized
pub mod Table
mod Tests
use harnesslab.Store.{Status, Metrics}
use harnesslab.Builder.{is_passed}
use harnesslab.Shared.Float.{Floats}
use harnesslab.Shared.Int64.{add64}
use harnesslab.Shared.{
  ℕ, ◌+◌, String, Bool, true, false, Option, none, some, List, [], ◌∷◌, ◌++◌, ◌==◌, string_eq,
  if◌then◌else◌,
}

-- The task of a job; a job may have none.
pub record Job : Type 0 where
  pub id : String
  pub task_id : Option String
  pub variant : String
  pub repeat : ℕ

module _ (F : Floats) where
  open F use {Float}

  -- An error is its text.
  pub record Outcome : Type 0 where
    pub job : Option Job
    pub run_id : String
    pub status : Option Status
    pub metrics : Metrics F
    pub error : Option String

  pub record RunSummary : Type 0 where
    pub run_id : String
    pub task_id : String
    pub variant : String
    pub repeat : ℕ
    pub status : Option Status
    pub tokens : ℕ
    pub input_tokens : ℕ
    pub output_tokens : ℕ
    pub model_calls : ℕ
    pub tool_calls : ℕ
    pub duration_ms : ℕ
    pub cost_usd : Float
    pub verification_passed : Bool
    pub workspace_changed : Bool
    pub error : String

  -- Without `Stats` and `ByTask`, which `Finalize` computes from the runs.
  pub record VariantResult : Type 0 where
    pub variant : String
    pub total : ℕ
    pub passed : ℕ
    pub failed : ℕ
    pub errored : ℕ
    pub input_tokens : ℕ
    pub output_tokens : ℕ
    pub model_calls : ℕ
    pub tool_calls : ℕ
    pub duration_ms : ℕ
    pub cost_usd : Float
    pub ver_passed : ℕ
    pub chg_count : ℕ
    pub runs : List RunSummary

  abbrev pub new_variant : String → VariantResult
  new_variant name = record {
    variant = name;
    total = 0;
    passed = 0;
    failed = 0;
    errored = 0;
    input_tokens = 0;
    output_tokens = 0;
    model_calls = 0;
    tool_calls = 0;
    duration_ms = 0;
    cost_usd = F.zero;
    ver_passed = 0;
    chg_count = 0;
    runs = [];
  }

  abbrev name_of : Option Job → String
  name_of none = "base"
  name_of (some j) = j.variant

  abbrev pub variant_name : Outcome → String
  variant_name o = name_of o.job

  abbrev repeat_of : Option Job → ℕ
  repeat_of none = 0
  repeat_of (some j) = j.repeat

  abbrev or_empty : Option String → String
  or_empty none = ""
  or_empty (some t) = t

  abbrev task_of : Option Job → String
  task_of none = ""
  task_of (some j) = or_empty j.task_id

  unfoldable pub summary_of : Outcome → RunSummary
  summary_of o = record {
    run_id = o.run_id;
    task_id = task_of o.job;
    variant = variant_name o;
    repeat = repeat_of o.job;
    status = o.status;
    tokens = add64 o.metrics.input_tokens o.metrics.output_tokens;
    input_tokens = o.metrics.input_tokens;
    output_tokens = o.metrics.output_tokens;
    model_calls = o.metrics.model_calls;
    tool_calls = o.metrics.tool_calls;
    duration_ms = o.metrics.duration_ms;
    cost_usd = o.metrics.cost_usd;
    verification_passed = o.metrics.verification_passed;
    workspace_changed = o.metrics.workspace_changed;
    error = or_empty o.error;
  }

  -- Which of the three counters an outcome adds to.
  pub data Verdict : Type 0 where
    errored passed failed : Verdict

  -- An outcome with an error has the empty status.
  abbrev pub status_passed : Option Status → Bool
  status_passed none = false
  status_passed (some s) = is_passed s

  abbrev verdict_by : Option String → Option Status → Verdict
  verdict_by (some e) s = Verdict.errored
  verdict_by none s = if status_passed s then Verdict.passed else Verdict.failed

  abbrev pub verdict : Outcome → Verdict
  verdict o = verdict_by o.error o.status

  abbrev pub errored_by : Verdict → ℕ
  errored_by Verdict.errored = 1
  errored_by _ = 0

  abbrev pub passed_by : Verdict → ℕ
  passed_by Verdict.passed = 1
  passed_by _ = 0

  abbrev pub failed_by : Verdict → ℕ
  failed_by Verdict.failed = 1
  failed_by _ = 0

  abbrev count_verdict : Verdict → VariantResult → VariantResult
  count_verdict d v = record v {
    errored = v.errored + errored_by d;
    passed = v.passed + passed_by d;
    failed = v.failed + failed_by d;
  }

  abbrev pub one_if : Bool → ℕ
  one_if b = if b then 1 else 0

  -- `variant`, and the change that `add` makes through the pointer that it returns: to the first
  -- variant of the name, or to a new one at the end.
  unfoldable pub change_variant :
      String → (VariantResult → VariantResult) → List VariantResult → List VariantResult
  change_variant name f [] = f (new_variant name) ∷ []
  change_variant name f (v ∷ vs) =
      if v.variant == name then f v ∷ vs else v ∷ change_variant name f vs

  module _ (add : Float → Float → Float) where
    -- What `add` does to the variant of the outcome.
    unfoldable pub record_outcome : Outcome → VariantResult → VariantResult
    unfolding summary_of
    record_outcome o v0 =
        let v = count_verdict (verdict o) (record v0 { total = v0.total + 1 }) in
        record v {
          input_tokens = add64 v.input_tokens o.metrics.input_tokens;
          output_tokens = add64 v.output_tokens o.metrics.output_tokens;
          model_calls = v.model_calls + o.metrics.model_calls;
          tool_calls = v.tool_calls + o.metrics.tool_calls;
          duration_ms = add64 v.duration_ms o.metrics.duration_ms;
          cost_usd = add v.cost_usd o.metrics.cost_usd;
          ver_passed = v.ver_passed + one_if o.metrics.verification_passed;
          chg_count = v.chg_count + one_if o.metrics.workspace_changed;
          runs = v.runs ++ summary_of o ∷ [];
        }

    unfoldable pub add_outcome : Outcome → List VariantResult → List VariantResult
    unfolding record_outcome change_variant
    add_outcome o vs = change_variant (variant_name o) (record_outcome o) vs

    -- The report after the pool has settled these outcomes in this order.
    unfoldable pub add_outcomes : List Outcome → List VariantResult → List VariantResult
    unfolding add_outcome
    add_outcomes [] vs = vs
    add_outcomes (o ∷ os) vs = add_outcomes os (add_outcome o vs)
