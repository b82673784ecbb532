-- ===== src/Optimize/Tests.antt =====
-- internal/optimize/eval.go: runs on small tables of results, with whole numbers as rates.
use harnesslab.Optimize.Pareto.{non_dominated}
use harnesslab.Optimize.Eval.{EvalResult, select_candidates, find_baseline, no_result, recommend}
use harnesslab.Optimize.Eval.Gate.{IsApproved, recommend-IsApproved}
use harnesslab.Optimize.Front.{Point}
use harnesslab.Runtime.{RunEvent}
use harnesslab.Store.{Run, passed, no_metrics}
use harnesslab.Builder.{new_verification, SandboxResult}
use harnesslab.Shared.Float.{whole_floats}
use harnesslab.Shared.Sorting.{sort_slice}
use harnesslab.Shared.Int64.{slt64, sle64}
use harnesslab.Shared.{false, String, ℕ, ◌≡◌, refl, List, [], ◌∷◌, map, All}

abbrev row : String → ℕ → ℕ → ℕ → EvalResult whole_floats
unfolding whole_floats
row name pass tokens cost = record {
  variant = name;
  pass = pass;
  tokens = tokens;
  cost = cost;
  runs = 1;
}

abbrev dev : List (EvalResult whole_floats)
dev =
    row "baseline" 50 100 10
    ∷ row "terse" 40 60 6
    ∷ row "worse" 40 120 12
    ∷ row "planner" 70 200 20
    ∷ []

abbrev holdout : List (EvalResult whole_floats)
holdout = row "baseline" 55 100 10 ∷ row "terse" 30 60 6 ∷ row "planner" 52 210 21 ∷ []

abbrev names : List (EvalResult whole_floats) → List String
names = map (λ (r : EvalResult whole_floats). r.variant)

front_names : names (select_candidates whole_floats dev) ≡ "planner" ∷ "baseline" ∷ "terse" ∷ []
unfolding select_candidates whole_floats sort_slice non_dominated slt64 sle64
front_names = refl

-- Accepted though the baseline did better on the holdout tasks, 55 against 52.
accepted_names : names (recommend whole_floats dev holdout).accepted ≡ "planner" ∷ "terse" ∷ []
unfolding recommend whole_floats sort_slice non_dominated slt64 sle64
accepted_names = refl

recommend-IsApproved_example :
    All
      (IsApproved whole_floats
        (find_baseline whole_floats (no_result whole_floats) dev).pass
        (select_candidates whole_floats dev)
        holdout)
      (recommend whole_floats dev holdout).accepted
recommend-IsApproved_example = recommend-IsApproved whole_floats dev holdout

abbrev point : String → ℕ → ℕ → ℕ → Point whole_floats
unfolding whole_floats
point name pass tokens time = record {
  variant = name;
  pass = pass;
  tokens = tokens;
  duration_ms = time;
  model_calls = 1;
  tool_calls = 1;
}

abbrev points : List (Point whole_floats)
points = point "a" 50 10 10 ∷ point "b" 40 10 10 ∷ point "c" 50 20 5 ∷ []

abbrev no_traces : String → List RunEvent
no_traces id = []

abbrev no_sandbox : ℕ → String → SandboxResult
no_sandbox k cmd = record { exit_code = 0; output = []; erred = false }

abbrev stored : String → ℕ → Run whole_floats
stored id tools = record {
  id = id;
  task = "t";
  harness_version = "v";
  harness_name = "h";
  repository = "repo";
  commit = "";
  workspace = "";
  trace_path = "";
  started_at = 0;
  finished_at = 0;
  status = passed;
  metrics = record (no_metrics whole_floats) { tool_calls = tools };
  spec_yaml = "";
  workspace_patch = [];
  verification = new_verification no_sandbox;
  environment = "";
}

abbrev some_runs : List (Run whole_floats)
some_runs = stored "r1" 2 ∷ stored "r2" 0 ∷ []
