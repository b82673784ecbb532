-- ===== src/Optimize/Eval.antt =====
-- internal/optimize/eval.go: candidates by success rate, tokens and cost, and the holdout gate.
pub mod Selection
pub mod Gate
use harnesslab.Optimize.Pareto.{non_dominated}
use harnesslab.Shared.Float.{Floats}
use harnesslab.Shared.Int64.{slt64, sle64}
use harnesslab.Shared.Sorting.{sort_slice}
use harnesslab.Shared.{
  ℕ, String, Bool, true, false, not, ◌&&◌, ◌||◌, Option, none, some, List, [], ◌∷◌, ◌++◌, ◌==◌,
  string_eq, if◌then◌else◌,
}

module _ (F : Floats) where
  open F use {Float, flt, fle, feq}

  -- `EvalResult`
  pub record EvalResult : Type 0 where
    pub variant : String
    pub pass : Float
    pub tokens : ℕ
    pub cost : Float
    pub runs : ℕ

  unfoldable pub eval_dominates : EvalResult → EvalResult → Bool
  eval_dominates a b =
      (flt b.pass a.pass || slt64 a.tokens b.tokens || flt a.cost b.cost)
      && (fle b.pass a.pass && sle64 a.tokens b.tokens && fle a.cost b.cost)

  -- The order of the front: by success rate, the highest first, then by tokens.
  unfoldable pub eval_before : EvalResult → EvalResult → Bool
  eval_before a b = if not (feq a.pass b.pass) then flt b.pass a.pass else slt64 a.tokens b.tokens

  unfoldable pub select_candidates : List EvalResult → List EvalResult
  unfolding eval_dominates eval_before
  select_candidates results = sort_slice eval_before (non_dominated eval_dominates results)

  unfoldable pub reject_rule : Float → Float → Float → Float → Bool
  reject_rule dev_baseline dev_candidate hold_baseline hold_candidate =
      fle dev_baseline dev_candidate && flt hold_candidate hold_baseline

  pub record Recommendation : Type 0 where
    pub baseline : EvalResult
    pub accepted : List EvalResult
    pub rejected : List EvalResult

  -- The first loop: the last result that is called "baseline".
  unfoldable pub find_baseline : EvalResult → List EvalResult → EvalResult
  find_baseline b [] = b
  find_baseline b (r ∷ rs) = find_baseline (if r.variant == "baseline" then r else b) rs

  -- `byName[name]`: the last result of that name.
  unfoldable pub by_name : Option EvalResult → String → List EvalResult → Option EvalResult
  by_name found name [] = found
  by_name found name (h ∷ hs) = by_name (if h.variant == name then some h else found) name hs

  abbrev pub accept : EvalResult → Recommendation → Recommendation
  accept h rec = record rec { accepted = rec.accepted ++ h ∷ [] }

  abbrev pub reject : EvalResult → Recommendation → Recommendation
  reject f rec = record rec { rejected = rec.rejected ++ f ∷ [] }

  -- One round of the last loop, for a candidate of the front and its holdout result.
  unfoldable pub judge : EvalResult → Option EvalResult → Recommendation → Recommendation
  unfolding reject_rule
  judge f none rec = reject f rec
  judge f (some h) rec =
      if reject_rule rec.baseline.pass f.pass rec.baseline.pass h.pass
      then reject f rec
      else accept h rec

  unfoldable pub judge_all : List EvalResult → List EvalResult → Recommendation → Recommendation
  unfolding judge by_name
  judge_all holdout [] rec = rec
  judge_all holdout (f ∷ fs) rec =
      judge_all holdout fs
        (if f.variant == "baseline" then rec else judge f (by_name none f.variant holdout) rec)

  -- The zero value of the result type.
  abbrev pub no_result : EvalResult
  no_result = record { variant = ""; pass = F.zero; tokens = 0; cost = F.zero; runs = 0 }

  unfoldable pub recommend : List EvalResult → List EvalResult → Recommendation
  unfolding find_baseline select_candidates judge_all
  recommend dev holdout =
      judge_all holdout (select_candidates dev)
        (record { baseline = find_baseline no_result dev; accepted = []; rejected = [] })
