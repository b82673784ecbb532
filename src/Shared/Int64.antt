-- ===== src/Shared/Int64.antt =====
-- Go's `int` and `int64` on a 64-bit machine, as bit patterns below 2^64: sums wrap, and `slt`
-- compares the patterns as two's complement numbers.
use harnesslab.Shared.Tests.{ltb, leb}
use Prim.Native.Nat.{ℕ, ◌+◌, ◌%◌, ◌^◌, ◌<◌}
use mathlib.Core.Path.{◌≡◌}
use mathlib.Core.Bool.{Bool, true, false}
use mathlib.Core.List.{List, [], ◌∷◌, ◌++◌}
use native.Mathlib.Omega.{arith}

unfoldable pub add64 : ℕ → ℕ → ℕ
add64 a b = (a + b) % 2 ^ 64

-- `a < b` on signed numbers: adding 2^63 turns the signed order into the unsigned one.
unfoldable pub slt64 : ℕ → ℕ → Bool
slt64 a b = ltb ((a + 2 ^ 63) % 2 ^ 64) ((b + 2 ^ 63) % 2 ^ 64)

-- `a <= b` on signed numbers.
unfoldable pub sle64 : ℕ → ℕ → Bool
sle64 a b = leb ((a + 2 ^ 63) % 2 ^ 64) ((b + 2 ^ 63) % 2 ^ 64)

abbrev pub sum : List ℕ → ℕ
sum [] = 0
sum (x ∷ xs) = x + sum xs

pub add64-mod_left : (a b : ℕ) → add64 (a % 2 ^ 64) b ≡ (a + b) % 2 ^ 64
unfolding add64
add64-mod_left a b = omega arith

pub add64-lt : (a b : ℕ) → add64 a b < 2 ^ 64
unfolding add64
add64-lt a b = omega arith

pub add64-eq-add : (a b : ℕ) → a + b < 2 ^ 64 → add64 a b ≡ a + b
unfolding add64
add64-eq-add a b h = omega arith

-- On numbers that are not negative the signed order is the order of the naturals.
pub slt64-eq-ltb : (a b : ℕ) → a < 2 ^ 63 → b < 2 ^ 63 → slt64 a b ≡ ltb a b
unfolding slt64
slt64-eq-ltb a b h k = ground arith

pub sum-append : (xs ys : List ℕ) → sum (xs ++ ys) ≡ sum xs + sum ys
sum-append [] ys = omega arith
sum-append (x ∷ xs) ys = omega (arith, sum-append xs ys)

pub slt64_irrefl : (a : ℕ) → slt64 a a ≡ false
unfolding slt64
slt64_irrefl a = ground arith

pub slt64_sle_trans : (a b c : ℕ) → slt64 a b ≡ true → sle64 b c ≡ true → slt64 a c ≡ true
unfolding slt64 sle64
slt64_sle_trans a b c h k = ground arith

pub sle64_slt_trans : (a b c : ℕ) → sle64 a b ≡ true → slt64 b c ≡ true → slt64 a c ≡ true
unfolding slt64 sle64
sle64_slt_trans a b c h k = ground arith

pub sle64_trans : (a b c : ℕ) → sle64 a b ≡ true → sle64 b c ≡ true → sle64 a c ≡ true
unfolding sle64
sle64_trans a b c h k = ground arith

pub slt64_asym : (a b : ℕ) → slt64 a b ≡ true → slt64 b a ≡ false
unfolding slt64
slt64_asym a b h = ground arith

pub slt64_weak : (a b c : ℕ) → slt64 b a ≡ false → slt64 c b ≡ false → slt64 c a ≡ false
unfolding slt64
slt64_weak a b c h k = ground arith
