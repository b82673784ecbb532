-- ===== src/Diff/Outcome.antt =====
-- internal/diff/diff.go: the other results of `Compare`, from where it finds the divergence.
use harnesslab.Diff.Steps.{Step, key_of}
use harnesslab.Diff.Table.{lcs_table, entry}
use harnesslab.Diff.Compare.{
  Line, Divergence, Trail, round_a, round_b, both_line, trail_a, trail_b, settle, walk,
  compare_with, compare_steps, same, both_differ, result,
}
use harnesslab.Diff.Divergence.{keys, located, Locates, settle-walk, located-Locates}
use mathlib.Core.Option
use harnesslab.Shared.{
  ℕ, ◌+◌, ◌≡◌, refl, ◌∙◌, sym, Bool, true, false, Option, none, some, List, [], ◌∷◌, ◌++◌, nat_eq,
  if◌then◌else◌, Bytes, Bool-cases, inl, inr, arith, ◌↔◌, length, leb, bytes_beq_iff, ap, get_elem?,
}

trail_a_ends :
    (t : Trail) (xs : List Step) → ((trail_a t xs).i ≡ t.i + length xs) × ((trail_a t xs).j ≡ t.j)
unfolding trail_a
trail_a_ends t [] = omega arith
trail_a_ends t (x ∷ xs) = omega (arith, trail_a_ends (round_a t x) xs)

trail_b_ends :
    (t : Trail) (xs : List Step) → ((trail_b t xs).i ≡ t.i) × ((trail_b t xs).j ≡ t.j + length xs)
unfolding trail_b
trail_b_ends t [] = omega arith
trail_b_ends t (x ∷ xs) = omega (arith, trail_b_ends (round_b t x) xs)

abbrev absent : Option Divergence → Bool
absent none = true
absent (some d) = false

abbrev lined : List Line → ℕ → Trail
lined lines k = record { lines = lines; i = k; j = k; first = true; found = none }

module _ (sha256 : Bytes → Bytes) where
  settle-identical :
      (table : List (List ℕ)) (all_a all_b : List Step) (lines : List Line) (k : ℕ)
      (xs ys : List Step)
      → k + length xs ≡ length all_a
      → k + length ys ≡ length all_b
      → (settle all_a all_b (walk sha256 table lines k k xs ys)).identical
        ≡ absent (located sha256 k xs ys)
  unfolding settle walk
  settle-identical table all_a all_b lines k [] [] p q = ground arith
  settle-identical table all_a all_b lines k (x ∷ xs) [] p q =
      ground (arith, trail_a_ends (lined lines k) (x ∷ xs))
  settle-identical table all_a all_b lines k [] (y ∷ ys) p q =
      ground (arith, trail_b_ends (lined lines k) (y ∷ ys))
  settle-identical table all_a all_b lines k (x ∷ xs) (y ∷ ys) p q =
      elim (Bool-cases (same sha256 x y)) [
        | inl e ↦ rw e (
            settle-identical table all_a all_b (lines ++ both_line k k x y false ∷ []) (k + 1) xs ys
              (omega arith) (omega arith))
        | inr e ↦ rw e (elim (Bool-cases (leb (entry table k (k + 1)) (entry table (k + 1) k))) [
          | inl f ↦ rw f refl
          | inr f ↦ rw f refl
        ])
      ]

  absent-located_iff :
      (xs ys : List Step)
      → (absent (located sha256 0 xs ys) ≡ true) ↔ (keys sha256 xs ≡ keys sha256 ys)
  absent-located_iff xs ys = decide (located sha256 0 xs ys) (located-Locates sha256 0 xs ys)
    where
      decide :
          (found : Option Divergence)
          → Locates sha256 0 xs ys found
          → (absent found ≡ true) ↔ (keys sha256 xs ≡ keys sha256 ys)
      decide none h = (λ _. h, λ _. refl)
      decide (some d) h = (λ e. cc, λ e. absurd (h.6 (ap (λ l. get_elem? l h.0) e)))

  -- Two trajectories are reported as identical exactly if their steps have the same keys in order.
  pub identical_iff :
      (xs ys : List Step)
      → ((compare_steps sha256 xs ys).identical ≡ true) ↔ (keys sha256 xs ≡ keys sha256 ys)
  unfolding compare_steps
  identical_iff xs ys =
      let e =
        settle-identical (lcs_table (keys sha256 xs) (keys sha256 ys)) xs ys [] 0 xs ys
          (omega arith) (omega arith) in
      rw e (absent-located_iff xs ys)

  settle-table :
      (t u : List (List ℕ)) (all_a all_b : List Step) (lines : List Line) (k : ℕ)
      (xs ys : List Step)
      → settle all_a all_b (walk sha256 t lines k k xs ys)
        ≡ settle all_a all_b (walk sha256 u lines k k xs ys)
  unfolding settle walk
  settle-table t u all_a all_b lines k [] ys = refl
  settle-table t u all_a all_b lines k (x ∷ xs) [] = refl
  settle-table t u all_a all_b lines k (x ∷ xs) (y ∷ ys) = elim (Bool-cases (same sha256 x y)) [
    | inl e ↦
        rw e (settle-table t u all_a all_b (lines ++ both_line k k x y false ∷ []) (k + 1) xs ys)
    | inr e ↦ rw e (settled t ∙ sym (settled u))
  ]
    where
      settled :
          (v : List (List ℕ))
          → settle all_a all_b (
              if leb (entry v k (k + 1)) (entry v (k + 1) k)
              then record {
                lines = lines ++ both_line k k x y true ∷ [];
                i = k + 1;
                j = k;
                rest_a = xs;
                rest_b = y ∷ ys;
                first = some (both_differ k k x y);
              }
              else record {
                lines = lines ++ both_line k k x y true ∷ [];
                i = k;
                j = k + 1;
                rest_a = x ∷ xs;
                rest_b = ys;
                first = some (both_differ k k x y);
              })
            ≡ result all_a all_b
                (lines ++ both_line k k x y true ∷ [])
                (some (both_differ k k x y))
                false
      settled v = elim (Bool-cases (leb (entry v k (k + 1)) (entry v (k + 1) k))) [
        | inl f ↦ rw f refl
        | inr f ↦ rw f refl
      ]

  -- The table of longest common subsequences has no influence: with any table in its place the
  -- comparison has the same result.
  pub compare_steps-table :
      (table : List (List ℕ)) (xs ys : List Step)
      → compare_steps sha256 xs ys ≡ compare_with sha256 table xs ys
  unfolding compare_steps
  compare_steps-table table xs ys =
      settle-table (lcs_table (keys sha256 xs) (keys sha256 ys)) table xs ys [] 0 xs ys

abbrev pub flip : Divergence → Divergence
flip d = record { step_a = d.step_b; step_b = d.step_a; a = d.b; b = d.a }

module _ (sha256 : Bytes → Bytes) where
  located-flip :
      (k : ℕ) (xs ys : List Step)
      → located sha256 k ys xs ≡ Option.map flip (located sha256 k xs ys)
  located-flip k [] [] = refl
  located-flip k (x ∷ xs) [] = refl
  located-flip k [] (y ∷ ys) = refl
  located-flip k (x ∷ xs) (y ∷ ys) = ground (
    arith,
    located-flip (k + 1) xs ys,
    bytes_beq_iff (key_of sha256 x) (key_of sha256 y),
    bytes_beq_iff (key_of sha256 y) (key_of sha256 x),
  )

  -- Comparing the other way round finds the same place, with the two sides exchanged.
  pub first_divergence-flip :
      (xs ys : List Step)
      → (compare_steps sha256 ys xs).first_divergence
        ≡ Option.map flip (compare_steps sha256 xs ys).first_divergence
  unfolding compare_steps
  first_divergence-flip xs ys =
      let e = settle-walk sha256 (lcs_table (keys sha256 xs) (keys sha256 ys)) xs ys [] 0 xs ys in
      let f = settle-walk sha256 (lcs_table (keys sha256 ys) (keys sha256 xs)) ys xs [] 0 ys xs in
      rw (e, f) (located-flip 0 xs ys)
