-- ===== src/Benchmark/Stats.antt =====
-- internal/benchmark/stats.go: the summary of one metric. The arithmetic of float64 is a parameter;
-- `ceil_int x` is `int(math.Ceil(x))`, any bit pattern of an `int`.
pub mod Members
use harnesslab.Shared.Float.{Floats}
use harnesslab.Shared.Int64.{slt64, sle64}
use harnesslab.Shared.Sorting.{sort_slice}
use harnesslab.Shared.{
  ℕ, ◌+◌, ◌-◌, ◌%◌, ◌^◌, Bool, not, ◌&&◌, ◌||◌, Option, none, some, List, [], ◌∷◌, nat_eq, ◌==◌,
  ltb, length, get_elem?, if◌then◌else◌,
}

pub record Arithmetic (F : Floats) : Type 0 where
  pub add : F.Float → F.Float → F.Float
  pub sub : F.Float → F.Float → F.Float
  pub mul : F.Float → F.Float → F.Float
  pub div : F.Float → F.Float → F.Float
  pub pow : F.Float → F.Float → F.Float
  pub sqrt : F.Float → F.Float
  -- `math.Round`
  pub nearest : F.Float → F.Float
  pub of_int : ℕ → F.Float
  pub ceil_int : F.Float → ℕ
  -- The literal 1.96.
  pub normal_quantile : F.Float

module _ (F : Floats) (A : Arithmetic F) where
  open F use {Float}

  pub record Stat : Type 0 where
    pub count : ℕ
    pub mean : Float
    pub median : Float
    pub std_dev : Float
    pub p50 : Float
    pub p90 : Float
    pub ci95_lo : Float
    pub ci95_hi : Float

  pub record Stats : Type 0 where
    pub input_tokens : Stat
    pub output_tokens : Stat
    pub cost_usd : Stat
    pub latency_ms : Stat

  abbrev pub zero_stat : Stat
  zero_stat = record {
    count = 0;
    mean = F.zero;
    median = F.zero;
    std_dev = F.zero;
    p50 = F.zero;
    p90 = F.zero;
    ci95_lo = F.zero;
    ci95_hi = F.zero;
  }

  unfoldable pub round : Float → ℕ → Float
  round v places =
      let pow = A.pow (A.of_int 10) (A.of_int places) in A.div (A.nearest (A.mul v pow)) pow

  -- The rank of the percentile, with the two corrections of it; `n` is the length of the slice.
  abbrev not_negative : ℕ → ℕ
  not_negative idx = if slt64 idx 0 then 0 else idx

  abbrev in_range : ℕ → ℕ → ℕ
  in_range n idx = if sle64 n idx then n - 1 else idx

  unfoldable pub rank : Float → ℕ → ℕ
  unfolding slt64 sle64
  rank p n =
      let idx = (A.ceil_int (A.mul (A.div p (A.of_int 100)) (A.of_int n)) + 2 ^ 64 - 1) % 2 ^ 64 in
      in_range n (not_negative idx)

  -- `none` where the index is out of range, which is a panic.
  unfoldable pub percentile : List Float → Float → Option Float
  unfolding rank
  percentile sorted p =
      if length sorted == 0 then some F.zero else get_elem? sorted (rank p (length sorted))

  -- The order of `sort.Float64s`: NaN comes first.
  abbrev pub is_nan : Float → Bool
  is_nan x = not (F.feq x x)

  abbrev pub float_less : Float → Float → Bool
  float_less x y = F.flt x y || is_nan x && not (is_nan y)

  abbrev sum_of : Float → List Float → Float
  sum_of acc [] = acc
  sum_of acc (v ∷ vs) = sum_of (A.add acc v) vs

  abbrev squares_of : Float → Float → List Float → Float
  squares_of mean acc [] = acc
  squares_of mean acc (v ∷ vs) = let d = A.sub v mean in squares_of mean (A.add acc (A.mul d d)) vs

  -- The summary of a sorted slice, given its median and its 90th percentile.
  unfoldable pub summarize : List Float → Float → Float → Stat
  unfolding round
  summarize sorted p50 p90 =
      let n = length sorted in
      let mean = A.div (sum_of F.zero sorted) (A.of_int n) in
      let sq = squares_of mean F.zero sorted in
      let std_dev = if ltb 1 n then A.sqrt (A.div sq (A.of_int (n - 1))) else F.zero in
      let ci =
        if ltb 1 n then A.div (A.mul A.normal_quantile std_dev) (A.sqrt (A.of_int n)) else F.zero in
      record {
        count = n;
        mean = round mean 3;
        median = round p50 3;
        std_dev = round std_dev 3;
        p50 = round p50 3;
        p90 = round p90 3;
        ci95_lo = round (A.sub mean ci) 3;
        ci95_hi = round (A.add mean ci) 3;
      }

  abbrev pub with_percentiles : (Float → Float → Stat) → Option Float → Option Float → Option Stat
  with_percentiles f none p90 = none
  with_percentiles f (some a) none = none
  with_percentiles f (some a) (some b) = some (f a b)

  unfoldable pub compute_stat : List Float → Option Stat
  unfolding percentile summarize
  compute_stat values =
      let sorted = sort_slice float_less values in
      if length values == 0
      then some zero_stat
      else with_percentiles (summarize sorted) (percentile sorted (A.of_int 50))
          (percentile sorted (A.of_int 90))
