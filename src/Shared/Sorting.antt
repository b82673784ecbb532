-- ===== src/Shared/Sorting.antt =====
-- `sort.Slice`: its documentation leaves the order of elements that compare equal open. Insertion
-- sort, which it runs on short slices, is the order chosen here. The lemmas below are what the
-- documentation promises: a permutation of the slice, in order.
use harnesslab.Shared.Tests.{if◌then◌else◌, Bool-cases}
use harnesslab.Shared.Lists.{All, any, length}
use Prim.Native.Nat.{suc, ◌+◌}
use mathlib.Core.Path.{◌≡◌, refl}
use mathlib.Core.Logic.{inl, inr}
use mathlib.Core.Bool.{Bool, true, false, ◌||◌}
use mathlib.Core.List.{List, [], ◌∷◌, ◌++◌, Perm, perm_middle, append-nil}
use mathlib.Core.List.Perm
use native.Mathlib.Omega.{arith}

module _ {ℓ} {A : Type ℓ} (less : A → A → Bool) where
  insert_by : A → List A → List A
  insert_by x [] = x ∷ []
  insert_by x (y ∷ ys) = if less x y then x ∷ y ∷ ys else y ∷ insert_by x ys

  sort_from : List A → List A → List A
  sort_from done [] = done
  sort_from done (x ∷ xs) = sort_from (insert_by x done) xs

  unfoldable pub sort_slice : List A → List A
  unfolding sort_from insert_by
  sort_slice xs = sort_from [] xs

  -- No element is less than one before it.
  abbrev pub IsSorted : List A → Type ℓ
  IsSorted [] = Unit
  IsSorted (x ∷ xs) = All (λ y. less y x ≡ false) xs × IsSorted xs

  insert_by-perm : (x : A) (ys : List A) → Perm (insert_by x ys) (x ∷ ys)
  unfolding insert_by
  insert_by-perm x [] = Perm.refl _
  insert_by-perm x (y ∷ ys) = elim (Bool-cases (less x y)) [
    | inl e ↦ rw e (Perm.refl _)
    | inr e ↦ rw e (Perm.trans (Perm.cons y (insert_by-perm x ys)) (Perm.swap x y ys))
  ]

  sort_from-perm : (done xs : List A) → Perm (sort_from done xs) (done ++ xs)
  unfolding sort_from
  sort_from-perm done [] = rw append-nil (Perm.refl done)
  sort_from-perm done (x ∷ xs) =
      Perm.trans (sort_from-perm (insert_by x done) xs) (
        Perm.trans (Perm.append_right xs (insert_by-perm x done)) (Perm.symm (perm_middle done xs)))

  -- The sorted slice has the elements of the slice.
  pub sort_slice-perm : (xs : List A) → Perm (sort_slice xs) xs
  unfolding sort_slice
  sort_slice-perm xs = sort_from-perm [] xs

  module _ {κ} (P : A → Type κ) where
    All-insert_by : (x : A) (ys : List A) → P x → All P ys → All P (insert_by x ys)
    unfolding insert_by
    All-insert_by x [] p h = (p, h)
    All-insert_by x (y ∷ ys) p (q, h) = elim (Bool-cases (less x y)) [
      | inl e ↦ rw e (p, (q, h))
      | inr e ↦ rw e (q, All-insert_by x ys p h)
    ]

    All-sort_from : (done xs : List A) → All P done → All P xs → All P (sort_from done xs)
    unfolding sort_from
    All-sort_from done [] h k = h
    All-sort_from done (x ∷ xs) h (p, k) =
        All-sort_from (insert_by x done) xs (All-insert_by x done p h) k

    pub All-sort_slice : (xs : List A) → All P xs → All P (sort_slice xs)
    unfolding sort_slice
    All-sort_slice xs h = All-sort_from [] xs tt h

  any-insert_by : (p : A → Bool) (x : A) (ys : List A) → any p (insert_by x ys) ≡ (p x || any p ys)
  unfolding insert_by
  any-insert_by p x [] = refl
  any-insert_by p x (y ∷ ys) = ground (arith, any-insert_by p x ys)

  any-sort_from :
      (p : A → Bool) (done xs : List A) → any p (sort_from done xs) ≡ (any p done || any p xs)
  unfolding sort_from
  any-sort_from p done [] = ground arith
  any-sort_from p done (x ∷ xs) =
      ground (arith, any-sort_from p (insert_by x done) xs, any-insert_by p x done)

  -- A search of the sorted slice finds what a search of the slice finds.
  pub any-sort_slice : (p : A → Bool) (xs : List A) → any p (sort_slice xs) ≡ any p xs
  unfolding sort_slice
  any-sort_slice p xs = any-sort_from p [] xs

  length-insert_by : (x : A) (ys : List A) → length (insert_by x ys) ≡ suc (length ys)
  unfolding insert_by
  length-insert_by x [] = refl
  length-insert_by x (y ∷ ys) = ground (arith, length-insert_by x ys)

  length-sort_from : (done xs : List A) → length (sort_from done xs) ≡ length done + length xs
  unfolding sort_from
  length-sort_from done [] = omega arith
  length-sort_from done (x ∷ xs) =
      omega (arith, length-sort_from (insert_by x done) xs, length-insert_by x done)

  pub length-sort_slice : (xs : List A) → length (sort_slice xs) ≡ length xs
  unfolding sort_slice
  length-sort_slice xs = omega (arith, length-sort_from [] xs)

-- The comparisons for which `sort.Slice` promises an order.
pub record IsStrictWeak {ℓ} {A : Type ℓ} (less : A → A → Bool) : Type ℓ where
  pub asym : (x y : A) → less x y ≡ true → less y x ≡ false
  pub trans : (x y z : A) → less y x ≡ false → less z y ≡ false → less z x ≡ false

module _ {ℓ} {A : Type ℓ} (less : A → A → Bool) (weak : IsStrictWeak less) where
  after-All :
      (x y : A) (ys : List A)
      → less y x ≡ false
      → All (λ z. less z y ≡ false) ys
      → All (λ z. less z x ≡ false) ys
  after-All x y [] h k = tt
  after-All x y (z ∷ zs) h (p, k) = (weak.trans x y z h p, after-All x y zs h k)

  insert_by-IsSorted :
      (x : A) (ys : List A) → IsSorted less ys → IsSorted less (insert_by less x ys)
  unfolding insert_by
  insert_by-IsSorted x [] s = (tt, tt)
  insert_by-IsSorted x (y ∷ ys) (h, s) = elim (Bool-cases (less x y)) [
    | inl e ↦ rw e (let g = weak.asym x y e in ((g, after-All x y ys g h), (h, s)))
    | inr e ↦ rw e (All-insert_by less (λ z. less z y ≡ false) x ys e h, insert_by-IsSorted x ys s)
  ]

  sort_from-IsSorted :
      (done xs : List A) → IsSorted less done → IsSorted less (sort_from less done xs)
  unfolding sort_from
  sort_from-IsSorted done [] s = s
  sort_from-IsSorted done (x ∷ xs) s =
      sort_from-IsSorted (insert_by less x done) xs (insert_by-IsSorted x done s)

  -- The sorted slice is in order.
  pub sort_slice-IsSorted : (xs : List A) → IsSorted less (sort_slice less xs)
  unfolding sort_slice
  sort_slice-IsSorted xs = sort_from-IsSorted [] xs tt
