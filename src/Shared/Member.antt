-- ===== src/Shared/Member.antt =====
-- Membership in a slice, and what the loops over slices say of the members.
use harnesslab.Shared.Tests.{if-cases, Bool-cases}
use harnesslab.Shared.Lists.{keep, any, count, All, length, get_elem?}
use mathlib.Core.Option.{some}
use Prim.Native.Nat.{ℕ, zero, suc, ◌≤◌, ◌<◌}
use mathlib.Core.Path.{◌≡◌, refl, ap, ◌∙◌}
use mathlib.Core.Logic.{inl, inr}
use mathlib.Core.Bool.{Bool, true, false, ◌||◌}
use mathlib.Core.List.{List, [], ◌∷◌, ◌++◌}
use native.Mathlib.Omega.{arith}

-- `a` stands in the list.
pub data In {ℓ} {A : Type ℓ} (a : A) : List A → Type ℓ where
  here : {x : A} {xs : List A} → x ≡ a → In a (x ∷ xs)
  there : {x : A} {xs : List A} → In a xs → In a (x ∷ xs)

or_true : (b : Bool) → (b || true) ≡ true
or_true true = refl
or_true false = refl

module _ {ℓ} {A : Type ℓ} where
  pub find : (p : A → Bool) (xs : List A) → any p xs ≡ true → (a : A) × (p a ≡ true) × In a xs
  find p [] h = cc
  find p (x ∷ xs) h = elim (Bool-cases (p x)) [
    | inl e ↦ (x, e, here refl)
    | inr e ↦ let (a, q, i) = find p xs (rw e at h) in (a, q, there i)
  ]

  pub any-In : (p : A → Bool) {a : A} {xs : List A} → In a xs → p a ≡ true → any p xs ≡ true
  any-In p (here {x} e) h = rw (ap p e ∙ h) refl
  any-In p (there {x} i) h = rw (any-In p i h) (or_true (p x))

  pub In-keep : (p : A → Bool) {a : A} {xs : List A} → In a xs → p a ≡ true → In a (keep p xs)
  In-keep p (here {x} e) h = rw (ap p e ∙ h) (here e)
  In-keep p {a} (there {x} i) h =
      if-cases (In a) (p x) (λ _. there (In-keep p i h)) (λ _. In-keep p i h)

  pub In-append_left : {a : A} (xs ys : List A) → In a xs → In a (xs ++ ys)
  In-append_left _ ys (here e) = here e
  In-append_left (x ∷ xs) ys (there i) = there (In-append_left xs ys i)

  pub In-append_right : {a : A} (xs ys : List A) → In a ys → In a (xs ++ ys)
  In-append_right [] ys i = i
  In-append_right (x ∷ xs) ys i = there (In-append_right xs ys i)

  pub count-le :
      (p q : A → Bool)
      → ((a : A) → q a ≡ true → p a ≡ true)
      → (xs : List A) → count q xs ≤ count p xs
  count-le p q sub [] = omega arith
  count-le p q sub (x ∷ xs) = ground (arith, sub x, count-le p q sub xs)

  -- A stricter test that fails at a member counts fewer.
  pub count-lt :
      (p q : A → Bool)
      → ((a : A) → q a ≡ true → p a ≡ true)
      → {a : A} {xs : List A} → In a xs
      → p a ≡ true
      → q a ≡ false
      → count q xs < count p xs
  count-lt p q sub (here {x} {xs} e) h k = ground (arith, ap p e, ap q e, count-le p q sub xs)
  count-lt p q sub (there {x} {xs} i) h k = ground (arith, sub x, count-lt p q sub i h k)

module _ {ℓ} {A : Type ℓ} where
  pub All-of_In : (P : A → Type ℓ) (xs : List A) → ((a : A) → In a xs → P a) → All P xs
  All-of_In P [] h = tt
  All-of_In P (x ∷ xs) h = (h x (here refl), All-of_In P xs (λ a i. h a (there i)))

  -- An index below the length finds an element, and what holds of all elements holds of it.
  pub get_elem?-All :
      (P : A → Type ℓ) (xs : List A) (i : ℕ)
      → i < length xs
      → All P xs
      → (a : A) × (get_elem? xs i ≡ some a) × P a
  get_elem?-All P [] i lt h = absurd (omega (arith, lt))
  get_elem?-All P (x ∷ xs) zero lt (p, h) = (x, refl, p)
  get_elem?-All P (x ∷ xs) (suc i) lt (p, h) = get_elem?-All P xs i (omega arith) h
