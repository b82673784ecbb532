-- ===== src/Shared/Float.antt =====
-- Go's float64. There are none in this library: a development takes them as a record with the
-- comparisons and the sums that the program uses, and with laws that hold of every IEEE 754 value,
-- NaN included (of which every comparison is false).
use harnesslab.Shared.Tests.{ltb, leb}
use Prim.Native.Nat.{ℕ}
use mathlib.Core.Path.{◌≡◌, refl}
use mathlib.Core.Bool.{Bool, true, false, ◌&&◌}
use native.Mathlib.Omega.{arith}

pub record Floats : Type 1 where
  pub Float : Type 0
  pub zero : Float
  pub flt : Float → Float → Bool
  pub fle : Float → Float → Bool
  pub feq : Float → Float → Bool
  pub flt_irrefl : (a : Float) → flt a a ≡ false
  pub flt_le_trans : (a b c : Float) → flt a b ≡ true → fle b c ≡ true → flt a c ≡ true
  pub fle_lt_trans : (a b c : Float) → fle a b ≡ true → flt b c ≡ true → flt a c ≡ true
  pub fle_trans : (a b c : Float) → fle a b ≡ true → fle b c ≡ true → fle a c ≡ true
  pub flt_fle : (a b : Float) → flt a b ≡ true → fle a b ≡ true
  pub feq_lem : (a b : Float) → feq a b ≡ (fle a b && fle b a)
  pub flt_asym : (a b : Float) → flt a b ≡ true → fle b a ≡ false

-- No two values are unordered: there is no NaN among them.
abbrev pub IsOrdered : Floats → Type 0
IsOrdered f = (a b : f.Float) → f.flt a b ≡ false → f.fle b a ≡ true

pub nat_feq : ℕ → ℕ → Bool
nat_feq a b = leb a b && leb b a

pub nat_irrefl : (a : ℕ) → ltb a a ≡ false
nat_irrefl a = ground arith

pub nat_lt_le : (a b c : ℕ) → ltb a b ≡ true → leb b c ≡ true → ltb a c ≡ true
nat_lt_le a b c p q = ground arith

pub nat_le_lt : (a b c : ℕ) → leb a b ≡ true → ltb b c ≡ true → ltb a c ≡ true
nat_le_lt a b c p q = ground arith

pub nat_le_le : (a b c : ℕ) → leb a b ≡ true → leb b c ≡ true → leb a c ≡ true
nat_le_le a b c p q = ground arith

pub nat_lt_weak : (a b : ℕ) → ltb a b ≡ true → leb a b ≡ true
nat_lt_weak a b p = ground arith

pub nat_asym : (a b : ℕ) → ltb a b ≡ true → leb b a ≡ false
nat_asym a b p = ground arith

pub nat_feq_lem : (a b : ℕ) → nat_feq a b ≡ (leb a b && leb b a)
unfolding nat_feq
nat_feq_lem a b = refl

-- Values that meet the laws: the floats that stand for whole numbers which are not negative.
unfoldable pub whole_floats : Floats
unfolding nat_feq
whole_floats = record {
  Float = ℕ;
  zero = 0;
  flt = ltb;
  fle = leb;
  feq = nat_feq;
  flt_irrefl = nat_irrefl;
  flt_le_trans = nat_lt_le;
  fle_lt_trans = nat_le_lt;
  fle_trans = nat_le_le;
  flt_fle = nat_lt_weak;
  feq_lem = nat_feq_lem;
  flt_asym = nat_asym;
}

pub whole_floats-IsOrdered : IsOrdered whole_floats
unfolding whole_floats
whole_floats-IsOrdered a b h = ground arith
