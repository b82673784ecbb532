-- ===== src/Benchmark/Report/Tests.antt =====
-- internal/benchmark/report.go and stats.go: summaries of a few runs. The arithmetic is that of whole
-- numbers, with the division rounded down.
use harnesslab.Benchmark.Report.{RunSummary, VariantResult, new_variant}
use harnesslab.Benchmark.Report.Table.{comma}
use harnesslab.Benchmark.Stats.{Arithmetic}
use harnesslab.Store.{Status, passed, failed}
use harnesslab.Shared.Float.{whole_floats}
use harnesslab.Shared.Int64.{slt64}
use harnesslab.Shared.Format.{decimal, digits_before}
use harnesslab.Shared.{
  ◌+◌, ◌-◌, ◌*◌, ◌/◌, ◌^◌, ◌≡◌, refl, String, true, some, List, [], ◌∷◌, bytes, string_eq,
}

abbrev whole : Arithmetic whole_floats
unfolding whole_floats
whole = record {
  add = λ x y. x + y;
  sub = λ x y. x - y;
  mul = λ x y. x * y;
  div = λ x y. x / y;
  pow = λ x y. x ^ y;
  sqrt = λ x. x;
  nearest = λ x. x;
  of_int = λ n. n;
  ceil_int = λ x. x;
  normal_quantile = 2;
}

abbrev values : List whole_floats.Float
unfolding whole_floats
values = 30 ∷ 10 ∷ 20 ∷ []

abbrev summary : String → Status → RunSummary whole_floats
unfolding whole_floats
summary task status = record {
  run_id = "r";
  task_id = task;
  variant = "a";
  repeat = 0;
  status = some status;
  tokens = 3;
  input_tokens = 2;
  output_tokens = 1;
  model_calls = 1;
  tool_calls = 0;
  duration_ms = 5;
  cost_usd = 0;
  verification_passed = true;
  workspace_changed = true;
  error = "";
}

abbrev runs : List (RunSummary whole_floats)
runs = summary "t" passed ∷ summary "u" failed ∷ summary "t" failed ∷ []

abbrev variants : List (VariantResult whole_floats)
variants = record (new_variant whole_floats "b") { runs = runs } ∷ new_variant whole_floats "a" ∷ []

grouped : comma 1234567 ≡ bytes "1,234,567"
unfolding comma slt64 decimal digits_before
grouped = refl
