-- ===== src/Optimize/Front.antt =====
-- internal/optimize/pareto.go: `Front`, the benchmark's front over success rate, tokens and time.
use harnesslab.Optimize.Pareto.{non_dominated, non_dominated-keep, beaten-non_dominated}
use harnesslab.Shared.Float.{Floats}
use harnesslab.Shared.Int64.{
  slt64, sle64, slt64_irrefl, slt64_sle_trans, sle64_slt_trans, sle64_trans,
}
use harnesslab.Shared.Sorting.{sort_slice, sort_slice-perm, any-sort_slice}
use harnesslab.Shared.{
  ℕ, String, ◌≡◌, ◌∙◌, Bool, true, false, not, ◌&&◌, ◌||◌, List, keep, any, arith, if◌then◌else◌,
}
use mathlib.Core.List.{Perm}

module _ (F : Floats) where
  open F use {Float, flt, fle, feq}

  pub record Point : Type 0 where
    pub variant : String
    pub pass : Float
    pub tokens : ℕ
    pub duration_ms : ℕ
    pub model_calls : ℕ
    pub tool_calls : ℕ

  unfoldable pub dominates : Point → Point → Bool
  dominates a b =
      (flt b.pass a.pass || slt64 a.tokens b.tokens || slt64 a.duration_ms b.duration_ms)
      && (fle b.pass a.pass && sle64 a.tokens b.tokens && sle64 a.duration_ms b.duration_ms)

  unfoldable pub point_before : Point → Point → Bool
  point_before a b = if not (feq a.pass b.pass) then flt b.pass a.pass else slt64 a.tokens b.tokens

  unfoldable pub front : List Point → List Point
  unfolding dominates point_before
  front points = sort_slice point_before (non_dominated dominates points)

  dominates_irrefl : (a : Point) → dominates a a ≡ false
  unfolding dominates
  dominates_irrefl a =
      ground (arith, F.flt_irrefl a.pass, slt64_irrefl a.tokens, slt64_irrefl a.duration_ms)

  dominates_trans :
      (a b c : Point) → dominates a b ≡ true → dominates b c ≡ true → dominates a c ≡ true
  unfolding dominates
  dominates_trans a b c h k = ground (
    arith,
    F.fle_trans c.pass b.pass a.pass,
    sle64_trans a.tokens b.tokens c.tokens,
    sle64_trans a.duration_ms b.duration_ms c.duration_ms,
    F.fle_lt_trans c.pass b.pass a.pass,
    F.flt_le_trans c.pass b.pass a.pass,
    slt64_sle_trans a.tokens b.tokens c.tokens,
    sle64_slt_trans a.tokens b.tokens c.tokens,
    slt64_sle_trans a.duration_ms b.duration_ms c.duration_ms,
    sle64_slt_trans a.duration_ms b.duration_ms c.duration_ms,
  )

  -- The front is a permutation of those points that no point dominates.
  pub front-perm :
      (points : List Point)
      → Perm (front points) (keep (λ a. not (any (λ b. dominates b a) points)) points)
  unfolding front
  front-perm points =
      rw (← non_dominated-keep dominates dominates_irrefl points) (sort_slice-perm point_before _)

  -- A point that is dominated is dominated by a point of the front.
  pub front-cover :
      (points : List Point) (a : Point)
      → any (λ b. dominates b a) points ≡ true
      → any (λ b. dominates b a) (front points) ≡ true
  unfolding front
  front-cover points a h =
      any-sort_slice point_before (λ b. dominates b a) _
      ∙ beaten-non_dominated dominates dominates_irrefl dominates_trans points a h
