-- ===== src/Diff/Divergence.antt =====
-- internal/diff/diff.go: where `Compare` finds the first divergence.
use harnesslab.Diff.Steps.{Step, key_of}
use harnesslab.Diff.Compare.{
  Line, Divergence, Trail, round_a, round_b, both_line, trail_a, trail_b, settle, walk,
  compare_steps, same, both_differ,
}
use mathlib.Core.Path.{ap₂}
use mathlib.Core.Option.{some-injective}
use harnesslab.Diff.Table.{lcs_table, entry}
use harnesslab.Shared.{
  ℕ, suc, ◌+◌, ◌≡◌, refl, ◌∙◌, ◌≢◌, true, false, Option, none, some, List, [], ◌∷◌, ◌++◌, map, take,
  get_elem?, if◌then◌else◌, Bytes, Bool-cases, inl, inr, arith, leb, bytes_beq_iff,
}

-- Once one round has run, the trailing loops find nothing more.
trail_a_later : (t : Trail) (xs : List Step) → t.first ≡ false → (trail_a t xs).found ≡ t.found
unfolding trail_a
trail_a_later t [] h = refl
trail_a_later t (x ∷ xs) h = trail_a_later (round_a t x) xs refl ∙ (rw h)

trail_b_later : (t : Trail) (ys : List Step) → t.first ≡ false → (trail_b t ys).found ≡ t.found
unfolding trail_b
trail_b_later t [] h = refl
trail_b_later t (y ∷ ys) h = trail_b_later (round_b t y) ys refl ∙ (rw h)

module _ (sha256 : Bytes → Bytes) where
  -- What `Compare` finds in the steps that are left at the index `k` of both sides.
  abbrev pub located : ℕ → List Step → List Step → Option Divergence
  located k [] [] = none
  located k (x ∷ xs) [] = some (record { step_a = k + 1; step_b = k + 1; a = some x; b = none })
  located k [] (y ∷ ys) = some (record { step_a = k + 1; step_b = k + 1; a = none; b = some y })
  located k (x ∷ xs) (y ∷ ys) =
      if same sha256 x y then located (k + 1) xs ys else some (both_differ k k x y)

  pub settle-walk :
      (table : List (List ℕ)) (all_a all_b : List Step) (lines : List Line) (k : ℕ)
      (xs ys : List Step)
      → (settle all_a all_b (walk sha256 table lines k k xs ys)).first_divergence ≡ located k xs ys
  unfolding settle walk
  settle-walk table all_a all_b lines k [] [] = refl
  settle-walk table all_a all_b lines k (x ∷ xs) [] =
      trail_a_later (round_a (record { lines = lines; i = k; j = k; first = true; found = none }) x)
        xs refl
  settle-walk table all_a all_b lines k [] (y ∷ ys) =
      trail_b_later (round_b (record { lines = lines; i = k; j = k; first = true; found = none }) y)
        ys refl
  settle-walk table all_a all_b lines k (x ∷ xs) (y ∷ ys) = elim (Bool-cases (same sha256 x y)) [
    | inl e ↦
        rw e (settle-walk table all_a all_b (lines ++ both_line k k x y false ∷ []) (k + 1) xs ys)
    | inr e ↦ rw e (elim (Bool-cases (leb (entry table k (k + 1)) (entry table (k + 1) k))) [
      | inl f ↦ rw f refl
      | inr f ↦ rw f refl
    ])
  ]

  abbrev pub keys : List Step → List Bytes
  keys = map (key_of sha256)

  -- The divergence `d` stands at the steps `k + 1` of both sides, `base` steps further on.
  abbrev pub At : ℕ → List Step → List Step → Divergence → Type 0
  At base xs ys d =
      (k : ℕ) × (d.step_a ≡ base + k + 1)
      × (d.step_b ≡ base + k + 1)
      × (d.a ≡ get_elem? xs k)
      × (d.b ≡ get_elem? ys k)
      × (take k (keys xs) ≡ take k (keys ys))
      × (get_elem? (keys xs) k ≢ get_elem? (keys ys) k)

  -- None exactly where all keys agree; otherwise the first index at which they do not.
  abbrev pub Locates : ℕ → List Step → List Step → Option Divergence → Type 0
  Locates base xs ys none = keys xs ≡ keys ys
  Locates base xs ys (some d) = At base xs ys d

  Locates-cons :
      (base : ℕ) (x y : Step) (xs ys : List Step) (found : Option Divergence)
      → key_of sha256 x ≡ key_of sha256 y
      → Locates (base + 1) xs ys found
      → Locates base (x ∷ xs) (y ∷ ys) found
  Locates-cons base x y xs ys none e h = ap₂ ◌∷◌ e h
  Locates-cons base x y xs ys (some d) e (k, p, q, r, s, t, u) =
      (suc k, omega arith, omega arith, r, s, ap₂ ◌∷◌ e t, u)

  pub located-Locates : (base : ℕ) (xs ys : List Step) → Locates base xs ys (located base xs ys)
  located-Locates base [] [] = refl
  located-Locates base (x ∷ xs) [] = (0, omega arith, omega arith, refl, refl, refl, cc)
  located-Locates base [] (y ∷ ys) = (0, omega arith, omega arith, refl, refl, refl, λ h. cc)
  located-Locates base (x ∷ xs) (y ∷ ys) = elim (Bool-cases (same sha256 x y)) [
    | inl e ↦
        rw e (
          Locates-cons base x y xs ys _ ((bytes_beq_iff _ _).0 e)
            (located-Locates (base + 1) xs ys))
    | inr e ↦ rw e (
      0,
      omega arith,
      omega arith,
      refl,
      refl,
      refl,
      λ h. cc (e, (bytes_beq_iff _ _).1 (some-injective _ _ h)),
    )
  ]

  -- The first divergence is absent exactly if both trajectories have the same keys. Otherwise, for
  -- some `k`, it is step `k + 1` of both sides with the steps that stand there (none where a side
  -- has ended), the first `k` keys agree, and the next ones differ.
  pub first_divergence-Locates :
      (xs ys : List Step) → Locates 0 xs ys (compare_steps sha256 xs ys).first_divergence
  unfolding compare_steps
  first_divergence-Locates xs ys =
      let e = settle-walk (lcs_table (keys xs) (keys ys)) xs ys [] 0 xs ys in
      rw e (located-Locates 0 xs ys)
