-- ===== src/Shared/Scan.antt =====
-- What the program uses of the package strings, on the bytes of a text: Split, TrimSpace, HasPrefix,
-- Contains, ReplaceAll. White space is that of ASCII.
use harnesslab.Shared.Tests.{if◌then◌else◌, ◌==◌, nat_eq, leb}
use harnesslab.Shared.Text.{Bytes}
use harnesslab.Shared.Lists.{length}
use Prim.Native.Nat.{ℕ, zero, suc, ◌-◌, ◌≤◌}
use native.Mathlib.Omega.{arith}
use mathlib.Core.Bool.{Bool, true, false, ◌&&◌, ◌||◌}
use mathlib.Core.List.{List, [], ◌∷◌, ◌++◌}

abbrev pub has_prefix : Bytes → Bytes → Bool
has_prefix s [] = true
has_prefix [] (c ∷ p) = false
has_prefix (b ∷ s) (c ∷ p) = b == c && has_prefix s p

abbrev pub contains : Bytes → Bytes → Bool
contains [] part = has_prefix [] part
contains (b ∷ s) part = has_prefix (b ∷ s) part || contains s part

-- Space, or one of `\t`, `\n`, `\v`, `\f`, `\r`.
abbrev is_space : ℕ → Bool
is_space b = b == 32 || leb 9 b && leb b 13

abbrev trim_left : Bytes → Bytes
trim_left [] = []
trim_left (b ∷ s) = let rest = trim_left s in if is_space b then rest else b ∷ s

-- Without white space at the end: a space is dropped if all that follows it is.
abbrev before : ℕ → Bytes → Bytes
before b [] = if is_space b then [] else b ∷ []
before b (c ∷ s) = b ∷ c ∷ s

abbrev trim_right : Bytes → Bytes
trim_right [] = []
trim_right (b ∷ s) = before b (trim_right s)

abbrev pub trim_space : Bytes → Bytes
trim_space s = trim_right (trim_left s)

abbrev push : ℕ → List Bytes → List Bytes
push b [] = (b ∷ []) ∷ []
push b (piece ∷ pieces) = (b ∷ piece) ∷ pieces

-- `strings.Split` at one byte: one piece more than there are separators.
abbrev pub split_at : ℕ → Bytes → List Bytes
split_at sep [] = [] ∷ []
split_at sep (b ∷ s) =
    let pieces = split_at sep s in if b == sep then [] ∷ pieces else push b pieces

-- The text with `new` for each occurrence of `old`, which is not empty; the first `skip` bytes are
-- already replaced.
abbrev pub replace_from : Bytes → Bytes → ℕ → Bytes → Bytes
replace_from old new skip [] = []
replace_from old new (suc skip) (b ∷ s) = replace_from old new skip s
replace_from old new zero (b ∷ s) =
    let hit = has_prefix (b ∷ s) old in
    (if hit then new else b ∷ []) ++ replace_from old new (if hit then length old - 1 else 0) s

-- `strings.ReplaceAll`
unfoldable pub replace_all : Bytes → Bytes → Bytes → Bytes
replace_all s old new = replace_from old new 0 s

trim_left-le : (s : Bytes) → length (trim_left s) ≤ length s
trim_left-le [] = omega arith
trim_left-le (b ∷ s) = ground (arith, trim_left-le s)

before-le : (b : ℕ) (s : Bytes) → length (before b s) ≤ suc (length s)
before-le b [] = ground arith
before-le b (c ∷ s) = omega arith

trim_right-le : (s : Bytes) → length (trim_right s) ≤ length s
trim_right-le [] = omega arith
trim_right-le (b ∷ s) = omega (arith, before-le b (trim_right s), trim_right-le s)

pub trim_space-le : (s : Bytes) → length (trim_space s) ≤ length s
trim_space-le s = omega (arith, trim_right-le (trim_left s), trim_left-le s)
