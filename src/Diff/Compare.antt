-- ===== src/Diff/Compare.antt =====
-- internal/diff/diff.go: `Compare`.
use harnesslab.Diff.Steps.{Step, key_of}
use harnesslab.Diff.Table.{lcs_table, entry}
use harnesslab.Shared.{
  ℕ, ◌+◌, Bool, true, false, Option, none, some, List, [], ◌∷◌, ◌++◌, map, leb, ◌==◌, nat_eq,
  bytes_eq, if◌then◌else◌, Bytes, length, ◌&&◌,
}

pub record Line : Type 0 where
  pub step_a : ℕ
  pub step_b : ℕ
  pub a : Option Step
  pub b : Option Step
  pub divergence : Bool

pub record Divergence : Type 0 where
  pub step_a : ℕ
  pub step_b : ℕ
  pub a : Option Step
  pub b : Option Step

pub record Diff : Type 0 where
  pub steps_a : List Step
  pub steps_b : List Step
  pub lines : List Line
  pub first_divergence : Option Divergence
  pub identical : Bool
  pub divergence_step_a : ℕ
  pub divergence_step_b : ℕ

-- Where the front walk stops: the lines so far, the indices, what is left of both sides, and the
-- divergence if it found one.
pub record Front : Type 0 where
  pub lines : List Line
  pub i : ℕ
  pub j : ℕ
  pub rest_a : List Step
  pub rest_b : List Step
  pub first : Option Divergence

abbrev pub both_line : ℕ → ℕ → Step → Step → Bool → Line
both_line i j x y d = record {
  step_a = i + 1;
  step_b = j + 1;
  a = some x;
  b = some y;
  divergence = d;
}

abbrev pub both_differ : ℕ → ℕ → Step → Step → Divergence
both_differ i j x y = record { step_a = i + 1; step_b = j + 1; a = some x; b = some y }

module _ (sha256 : Bytes → Bytes) where
  abbrev pub same : Step → Step → Bool
  same x y = key_of sha256 x == key_of sha256 y

  -- The loop over the common front, up to its `break`.
  unfoldable pub walk : List (List ℕ) → List Line → ℕ → ℕ → List Step → List Step → Front
  walk table lines i j (x ∷ xs) (y ∷ ys) =
      let onward = walk table (lines ++ both_line i j x y false ∷ []) (i + 1) (j + 1) xs ys in
      let lines' = lines ++ both_line i j x y true ∷ [] in
      if same x y
      then onward
      else if leb (entry table i (j + 1)) (entry table (i + 1) j)
      then record {
        lines = lines';
        i = i + 1;
        j = j;
        rest_a = xs;
        rest_b = y ∷ ys;
        first = some (both_differ i j x y);
      }
      else record {
        lines = lines';
        i = i;
        j = j + 1;
        rest_a = x ∷ xs;
        rest_b = ys;
        first = some (both_differ i j x y);
      }
  walk table lines i j xs ys = record {
    lines = lines;
    i = i;
    j = j;
    rest_a = xs;
    rest_b = ys;
    first = none;
  }

-- `markDivergence` keeps the first one.
abbrev pub mark : Option Divergence → Divergence → Option Divergence
mark none d = some d
mark (some d) _ = some d

-- The variables of the two loops over trailing steps.
pub record Trail : Type 0 where
  pub lines : List Line
  pub i : ℕ
  pub j : ℕ
  pub first : Bool
  pub found : Option Divergence

abbrev pub round_a : Trail → Step → Trail
round_a t x = record {
  lines =
      t.lines
      ++ record { step_a = t.i + 1; step_b = 0; a = some x; b = none; divergence = t.first } ∷ [];
  i = t.i + 1;
  j = t.j;
  first = false;
  found =
      if t.first
      then mark t.found (record { step_a = t.i + 1; step_b = t.j + 1; a = some x; b = none })
      else t.found;
}

abbrev pub round_b : Trail → Step → Trail
round_b t y = record {
  lines =
      t.lines
      ++ record { step_a = 0; step_b = t.j + 1; a = none; b = some y; divergence = t.first } ∷ [];
  i = t.i;
  j = t.j + 1;
  first = false;
  found =
      if t.first
      then mark t.found (record { step_a = t.i + 1; step_b = t.j + 1; a = none; b = some y })
      else t.found;
}

unfoldable pub trail_a : Trail → List Step → Trail
trail_a t [] = t
trail_a t (x ∷ xs) = trail_a (round_a t x) xs

unfoldable pub trail_b : Trail → List Step → Trail
trail_b t [] = t
trail_b t (y ∷ ys) = trail_b (round_b t y) ys

abbrev pub trail : Front → Trail
trail f =
    trail_b
      (trail_a (record { lines = f.lines; i = f.i; j = f.j; first = true; found = none }) f.rest_a)
      f.rest_b

abbrev pub mark_a : Option Divergence → ℕ
mark_a none = 0
mark_a (some d) = d.step_a

abbrev pub mark_b : Option Divergence → ℕ
mark_b none = 0
mark_b (some d) = d.step_b

abbrev pub result : List Step → List Step → List Line → Option Divergence → Bool → Diff
result xs ys lines found identical = record {
  steps_a = xs;
  steps_b = ys;
  lines = lines;
  first_divergence = found;
  identical = identical;
  divergence_step_a = mark_a found;
  divergence_step_b = mark_b found;
}

-- What follows the walk: the trailing steps are a divergence only if the walk found none.
unfoldable pub settle : List Step → List Step → Front → Diff
unfolding trail_a trail_b
settle xs ys f = elim f.first [
  | some d ↦ result xs ys f.lines (some d) false
  | none ↦
      let t = trail f in
      result xs ys t.lines t.found (t.i == length xs && t.j == length ys && length xs == length ys)
]

module _ (sha256 : Bytes → Bytes) where
  unfoldable pub compare_with : List (List ℕ) → List Step → List Step → Diff
  unfolding walk settle key_of
  compare_with table xs ys = settle xs ys (walk sha256 table [] 0 0 xs ys)

  unfoldable pub compare_steps : List Step → List Step → Diff
  unfolding compare_with lcs_table
  compare_steps xs ys =
      compare_with (lcs_table (map (key_of sha256) xs) (map (key_of sha256) ys)) xs ys
