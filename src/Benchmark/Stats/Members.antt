-- ===== src/Benchmark/Stats/Members.antt =====
-- internal/benchmark/stats.go: the index of a percentile, and what it selects.
use harnesslab.Benchmark.Stats.{
  Arithmetic, Stat, rank, percentile, round, float_less, summarize, compute_stat,
}
use harnesslab.Shared.Float.{Floats}
use harnesslab.Shared.Int64.{slt64, sle64}
use harnesslab.Shared.Sorting.{sort_slice, All-sort_slice, length-sort_slice}
use harnesslab.Shared.{
  ℕ, ◌+◌, ◌-◌, ◌%◌, ◌^◌, ◌<◌, ◌≡◌, refl, some, List, nat_eq, ◌==◌, length, if◌then◌else◌, In,
  All-of_In, get_elem?-All, arith, false,
}

corrected-lt :
    (i n : ℕ)
    → 0 < n
    → n < 2 ^ 63
    → i < 2 ^ 64
    → (if sle64 n (if slt64 i 0 then 0 else i) then n - 1 else (if slt64 i 0 then 0 else i)) < n
unfolding slt64 sle64
corrected-lt i n h k l = ground arith

module _ (F : Floats) (A : Arithmetic F) where
  open F use {Float}

  rank-lt : (p : Float) (n : ℕ) → 0 < n → n < 2 ^ 63 → rank F A p n < n
  unfolding rank
  rank-lt p n h k =
      corrected-lt
        ((A.ceil_int (A.mul (A.div p (A.of_int 100)) (A.of_int n)) + 2 ^ 64 - 1) % 2 ^ 64) n h k
        (omega arith)

  percentile-In :
      (values : List Float) (p : Float)
      → 0 < length values
      → length values < 2 ^ 63
      → (x : Float) × (percentile F A (sort_slice (float_less F A) values) p ≡ some x) × In x values
  unfolding percentile
  percentile-In values p h k =
      let sorted = sort_slice (float_less F A) values in
      let e = length-sort_slice (float_less F A) values in
      let lt : rank F A p (length sorted) < length sorted =
        rank-lt p (length sorted) (omega (arith, e)) (omega (arith, e)) in
      let all =
        All-sort_slice (float_less F A) (λ x. In x values) values
          (All-of_In (λ x. In x values) values (λ a i. i)) in
      let (x, q, i) = get_elem?-All (λ x. In x values) sorted (rank F A p (length sorted)) lt all in
      let full : (length sorted == 0) ≡ false = ground (arith, e) in (x, rw full q, i)

  -- The summary of fewer than 2^63 values is computed without an index out of range, whatever the
  -- arithmetic makes of the ranks; of at least one value, its count is their number, its median and
  -- its P50 are one of the values rounded to three places, and so is its P90.
  pub compute_stat-members :
      (values : List Float)
      → 0 < length values
      → length values < 2 ^ 63
      → (s : Stat F A) × (a : Float) × (b : Float) × (compute_stat F A values ≡ some s)
        × In a values
        × In b values
        × (s.count ≡ length values)
        × (s.median ≡ round F A a 3)
        × (s.p50 ≡ round F A a 3)
        × (s.p90 ≡ round F A b 3)
  unfolding compute_stat summarize
  compute_stat-members values h k =
      let (a, p, i) = percentile-In values (A.of_int 50) h k in
      let (b, q, j) = percentile-In values (A.of_int 90) h k in
      let full : (length values == 0) ≡ false = ground arith in
      (
        summarize F A (sort_slice (float_less F A) values) a b,
        a,
        b,
        rw (full, p, q) refl,
        i,
        j,
        length-sort_slice (float_less F A) values,
        refl,
        refl,
        refl,
      )
