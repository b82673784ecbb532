-- ===== src/Optimize/Eval/Selection.antt =====
-- internal/optimize/eval.go: which candidates `SelectCandidates` returns, and in what order.
use harnesslab.Optimize.Pareto.{non_dominated-keep, beaten-non_dominated}
use harnesslab.Optimize.Eval.{EvalResult, eval_dominates, eval_before, select_candidates}
use harnesslab.Shared.Float.{Floats, IsOrdered}
use harnesslab.Shared.Int64.{
  slt64_irrefl, slt64_sle_trans, sle64_slt_trans, sle64_trans, slt64_asym, slt64_weak,
}
use harnesslab.Shared.Sorting.{
  sort_slice-perm, any-sort_slice, IsStrictWeak, IsSorted, sort_slice-IsSorted,
}
use harnesslab.Shared.{◌≡◌, ◌∙◌, true, false, not, List, keep, any, arith}
use mathlib.Core.List.{Perm}

module _ (F : Floats) where
  open F use {Float, flt, fle, feq}

  eval_dominates_irrefl : (a : EvalResult F) → eval_dominates F a a ≡ false
  unfolding eval_dominates
  eval_dominates_irrefl a =
      ground (arith, F.flt_irrefl a.pass, slt64_irrefl a.tokens, F.flt_irrefl a.cost)

  eval_dominates_trans :
      (a b c : EvalResult F)
      → eval_dominates F a b ≡ true
      → eval_dominates F b c ≡ true
      → eval_dominates F a c ≡ true
  unfolding eval_dominates
  eval_dominates_trans a b c h k = ground (
    arith,
    F.fle_trans c.pass b.pass a.pass,
    F.fle_trans a.cost b.cost c.cost,
    sle64_trans a.tokens b.tokens c.tokens,
    F.fle_lt_trans c.pass b.pass a.pass,
    F.flt_le_trans a.cost b.cost c.cost,
    slt64_sle_trans a.tokens b.tokens c.tokens,
    F.flt_le_trans c.pass b.pass a.pass,
    F.fle_lt_trans a.cost b.cost c.cost,
    sle64_slt_trans a.tokens b.tokens c.tokens,
  )

  -- The selection is a permutation of those results that no result dominates.
  pub select_candidates-perm :
      (results : List (EvalResult F))
      → Perm
          (select_candidates F results)
          (keep (λ a. not (any (λ b. eval_dominates F b a) results)) results)
  unfolding select_candidates
  select_candidates-perm results =
      rw (← non_dominated-keep (eval_dominates F) eval_dominates_irrefl results)
        (sort_slice-perm (eval_before F) _)

  -- Whatever some result dominates, a selected result dominates: nothing is left out but for a
  -- better one that is selected.
  pub select_candidates-cover :
      (results : List (EvalResult F)) (a : EvalResult F)
      → any (λ b. eval_dominates F b a) results ≡ true
      → any (λ b. eval_dominates F b a) (select_candidates F results) ≡ true
  unfolding select_candidates
  select_candidates-cover results a h =
      any-sort_slice (eval_before F) (λ b. eval_dominates F b a) _
      ∙ beaten-non_dominated (eval_dominates F) eval_dominates_irrefl eval_dominates_trans results a
          h

  module _ (ordered : IsOrdered F) where
    eval_before-IsStrictWeak : IsStrictWeak (eval_before F)
    unfolding eval_before
    eval_before-IsStrictWeak = record {
      asym = λ x y h. ground (
        arith,
        F.feq_lem x.pass y.pass,
        F.feq_lem y.pass x.pass,
        F.flt_asym y.pass x.pass,
        F.flt_fle x.pass y.pass,
        ordered x.pass y.pass,
        ordered y.pass x.pass,
        slt64_asym x.tokens y.tokens,
      );
      trans = λ x y z h k. ground (
        arith,
        F.feq_lem x.pass y.pass,
        F.feq_lem y.pass x.pass,
        F.feq_lem z.pass y.pass,
        F.feq_lem z.pass x.pass,
        F.flt_asym x.pass z.pass,
        ordered x.pass y.pass,
        ordered y.pass z.pass,
        ordered x.pass z.pass,
        F.fle_trans z.pass y.pass x.pass,
        F.fle_trans x.pass z.pass y.pass,
        F.fle_trans y.pass x.pass z.pass,
        slt64_weak x.tokens y.tokens z.tokens,
      );
    }

    -- With no NaN among the rates, the selection is ordered: higher rates first, and fewer tokens
    -- first among equal rates.
    pub select_candidates-IsSorted :
        (results : List (EvalResult F)) → IsSorted (eval_before F) (select_candidates F results)
    unfolding select_candidates
    select_candidates-IsSorted results =
        sort_slice-IsSorted (eval_before F) eval_before-IsStrictWeak _
