-- ===== src/Shared/Format.antt =====
-- What the program uses of fmt.Sprintf on numbers that are not negative: `%d` and `%05d`.
use harnesslab.Shared.Lists.{length}
use harnesslab.Shared.Tests.{ltb, if◌then◌else◌}
use harnesslab.Shared.Text.{Bytes}
use Prim.Native.Nat.{ℕ, zero, suc, ◌+◌, ◌-◌, ◌/◌, ◌%◌}
use mathlib.Core.List.{[], ◌∷◌, ◌++◌}

-- The digits of `n` before those already there; a number has no more digits than its value + 1.
unfoldable pub digits_before : ℕ → ℕ → Bytes → Bytes
digits_before zero n tail = tail
digits_before (suc fuel) n tail =
    let more = digits_before fuel (n / 10) ((b'0' + n % 10) ∷ tail) in
    if ltb n 10 then (b'0' + n) ∷ tail else more

unfoldable pub decimal : ℕ → Bytes
unfolding digits_before
decimal n = digits_before (suc n) n []

abbrev pub zero_digits : ℕ → Bytes
zero_digits zero = []
zero_digits (suc k) = b'0' ∷ zero_digits k

unfoldable pub pad5 : ℕ → Bytes
unfolding decimal
pad5 n = zero_digits (5 - length (decimal n)) ++ decimal n
