-- ===== src/Benchmark/Report/Totals.antt =====
-- internal/benchmark/report.go: the counters of a variant next to its outcomes.
use harnesslab.Benchmark.Report.{
  Outcome, VariantResult, Verdict, new_variant, summary_of, verdict, errored_by, passed_by,
  failed_by, record_outcome, add_outcomes,
}
use harnesslab.Benchmark.Report.Grouping.{entry_of, outcomes_of, record_all, add_outcomes-grouped}
use harnesslab.Shared.Float.{Floats}
use harnesslab.Shared.Int64.{add64, sum}
use mathlib.Core.List.{append_assoc, append-nil}
use harnesslab.Shared.{
  ℕ, ◌+◌, ◌%◌, ◌^◌, String, ◌≡◌, refl, ◌∙◌, sym, Bool, true, false, List, [], ◌∷◌, ◌++◌, length,
  map, arith,
}

module _ (F : Floats) where
  abbrev pub is_errored : Outcome F → Bool
  is_errored o = elim (verdict F o) [ Verdict.errored ↦ true | _ ↦ false ]

  abbrev input_of : Outcome F → ℕ
  input_of o = o.metrics.input_tokens

  abbrev output_of : Outcome F → ℕ
  output_of o = o.metrics.output_tokens

  -- What the outcomes `os` add to the entry `v`, which becomes `v'`.
  pub record Counts (os : List (Outcome F)) (v v' : VariantResult F) : Type 0 where
    pub total : v'.total ≡ v.total + length os
    pub split :
        v'.passed + v'.failed + v'.errored + v.total ≡ v.passed + v.failed + v.errored + v'.total
    pub passed : v'.passed ≡ v.passed + sum (map (λ o. passed_by F (verdict F o)) os)
    pub errored : v'.errored ≡ v.errored + sum (map (λ o. errored_by F (verdict F o)) os)
    pub inputs : v'.input_tokens % 2 ^ 64 ≡ (v.input_tokens + sum (map input_of os)) % 2 ^ 64
    pub outputs : v'.output_tokens % 2 ^ 64 ≡ (v.output_tokens + sum (map output_of os)) % 2 ^ 64
    pub runs : v'.runs ≡ v.runs ++ map (summary_of F) os

  one_verdict : (d : Verdict F) → passed_by F d + failed_by F d + errored_by F d ≡ 1
  one_verdict Verdict.errored = refl
  one_verdict Verdict.passed = refl
  one_verdict Verdict.failed = refl

  module _ (add : F.Float → F.Float → F.Float) where
    Counts-cons :
        (o : Outcome F) (os : List (Outcome F)) (v v' : VariantResult F)
        → Counts os (record_outcome F add o v) v'
        → Counts (o ∷ os) v v'
    unfolding record_outcome add64
    Counts-cons o os v v' rest =
        let one = one_verdict (verdict F o) in
        record {
          total = omega (arith, rest.total);
          split = omega (arith, rest.split, one);
          passed = omega (arith, rest.passed);
          errored = omega (arith, rest.errored);
          inputs = omega (arith, rest.inputs);
          outputs = omega (arith, rest.outputs);
          runs = rest.runs ∙ append_assoc v.runs (summary_of F o ∷ []) (map (summary_of F) os);
        }

    record_all-Counts :
        (os : List (Outcome F)) (v : VariantResult F) → Counts os v (record_all F add os v)
    record_all-Counts [] v = record {
      total = omega arith;
      split = omega arith;
      passed = omega arith;
      errored = omega arith;
      inputs = omega arith;
      outputs = omega arith;
      runs = sym (append-nil v.runs);
    }
    record_all-Counts (o ∷ os) v =
        let rest = record_all-Counts os (record_outcome F add o v) in
        Counts-cons o os v (record_all F add os (record_outcome F add o v)) rest

    -- However many outcomes a variant has, and in whatever order: its passed, failed and errored runs
    -- make up its total, which is the number of its outcomes; the first and the last of these are the
    -- numbers of outcomes that passed and that have an error; the tokens are the 64-bit sums of theirs;
    -- and its runs are their summaries in order.
    pub add_outcomes-Counts :
        (name : String) (os : List (Outcome F))
        → Counts
            (outcomes_of F name os)
            (new_variant F name)
            (entry_of F name (add_outcomes F add os []))
    add_outcomes-Counts name os =
        rw (add_outcomes-grouped F add name os)
          (record_all-Counts (outcomes_of F name os) (new_variant F name))
