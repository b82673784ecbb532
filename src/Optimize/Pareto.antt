-- ===== src/Optimize/Pareto.antt =====
-- The selection loop that internal/optimize/pareto.go and eval.go both contain: of a list, the
-- elements that no other one dominates.
use mathlib.Core.List.{append_assoc}
use harnesslab.Shared.{
  ℕ, zero, suc, ◌+◌, ◌<◌, ◌≡◌, refl, ◌∙◌, sym, ap, Bool, true, false, not, List, [], ◌∷◌, ◌++◌,
  ◌==◌, nat_eq, if◌then◌else◌, Bool-cases, inl, inr, any, keep, arith, length, length-append, count,
  count-lt, In-keep, any-In, find,
}

module _ {ℓ} {A : Type ℓ} (dominates : A → A → Bool) where
  -- The inner loop, over `j`: does an element at another index than `i` dominate `a`?
  dominated_by : ℕ → A → ℕ → List A → Bool
  dominated_by i a j [] = false
  dominated_by i a j (b ∷ bs) =
      let rest = dominated_by i a (j + 1) bs in
      if i == j then rest else if dominates b a then true else rest

  -- The outer loop, over `i`.
  select_from : List A → ℕ → List A → List A
  select_from all i [] = []
  select_from all i (a ∷ rest_of) =
      let rest = select_from all (i + 1) rest_of in
      if dominated_by i a 0 all then rest else a ∷ rest

  unfoldable pub non_dominated : List A → List A
  unfolding select_from dominated_by
  non_dominated all = select_from all 0 all

  -- Some element of the list dominates `a`.
  abbrev pub beaten : List A → A → Bool
  beaten all a = any (λ b. dominates b a) all

  abbrev pub survives : List A → A → Bool
  survives all a = not (beaten all a)

module _ {ℓ} {A : Type ℓ} (dominates : A → A → Bool)
    (irrefl : (a : A) → dominates a a ≡ false) where
  -- Past the index `i` the inner loop is a plain search.
  dominated_by-later :
      (i : ℕ) (a : A) (j : ℕ) (bs : List A)
      → i < j
      → dominated_by dominates i a j bs ≡ beaten dominates bs a
  unfolding dominated_by
  dominated_by-later i a j [] h = refl
  dominated_by-later i a j (b ∷ bs) h = ground (arith, dominated_by-later i a (j + 1) bs)

  -- To skip the element itself changes nothing: it does not dominate itself.
  dominated_by-beaten :
      (a : A) (before after : List A) (j : ℕ)
      → dominated_by dominates (j + length before) a j (before ++ a ∷ after)
        ≡ beaten dominates (before ++ a ∷ after) a
  unfolding dominated_by
  dominated_by-beaten a [] after j =
      ground (arith, irrefl a, dominated_by-later (j + 0) a (j + 1) after)
  dominated_by-beaten a (b ∷ before) after j =
      let e : j + suc (length before) ≡ j + 1 + length before = omega arith in
      let rest = before ++ a ∷ after in
      let ih : dominated_by dominates (j + suc (length before)) a (j + 1) rest
          ≡ beaten dominates rest a =
        ap (λ i. dominated_by dominates i a (j + 1) rest) e
        ∙ dominated_by-beaten a before after (j + 1) in
      ground (arith, ih)

  select_from-keep :
      (all before rest : List A)
      → all ≡ before ++ rest
      → select_from dominates all (length before) rest ≡ keep (survives dominates all) rest
  unfolding select_from
  select_from-keep all before [] e = refl
  select_from-keep all before (a ∷ rest) e =
      let test : dominated_by dominates (length before) a 0 all ≡ beaten dominates all a = rw e (
        ap (λ i. dominated_by dominates i a 0 (before ++ a ∷ rest)) (omega arith)
        ∙ dominated_by-beaten a before rest 0) in
      let next : length (before ++ a ∷ []) ≡ length before + 1 =
        omega (arith, length-append before (a ∷ [])) in
      let ih : select_from dominates all (length before + 1) rest
          ≡ keep (survives dominates all) rest =
        ap (λ i. select_from dominates all i rest) (sym next)
        ∙ select_from-keep all (before ++ a ∷ []) rest
            (e ∙ sym (append_assoc before (a ∷ []) rest)) in
      ground (arith, test, ih)

  -- The loops keep exactly the elements that no element of the list dominates, in their order.
  pub non_dominated-keep :
      (all : List A) → non_dominated dominates all ≡ keep (survives dominates all) all
  unfolding non_dominated
  non_dominated-keep all = select_from-keep all [] all refl

  module _
      (trans : (a b c : A)
        → dominates a b ≡ true
        → dominates b c ≡ true
        → dominates a c ≡ true) where
    -- By induction on the number of elements that dominate `a`.
    beaten-survivor :
        (all : List A) (fuel : ℕ) (a : A)
        → count (λ b. dominates b a) all < fuel
        → beaten dominates all a ≡ true
        → beaten dominates (keep (survives dominates all) all) a ≡ true
    beaten-survivor all zero a h e = absurd (omega arith)
    beaten-survivor all (suc fuel) a h e =
        let (b, beats, i) = find (λ b. dominates b a) all e in
        elim (Bool-cases (beaten dominates all b)) [
          | inl beaten_b ↦
              let fewer =
                count-lt (λ c. dominates c a) (λ c. dominates c b) (λ c d. trans c b a d beats) i
                  beats (irrefl b) in
              let (c, beats_b, k) =
                find (λ c. dominates c b) (keep (survives dominates all) all)
                  (beaten-survivor all fuel b (omega arith) beaten_b) in
              any-In (λ c. dominates c a) k (trans c b a beats_b beats)
          | inr free ↦
              any-In (λ c. dominates c a) (In-keep (survives dominates all) i (rw free refl)) beats
        ]

    -- What an element of the list dominates is dominated by one that is kept.
    pub beaten-non_dominated :
        (all : List A) (a : A)
        → beaten dominates all a ≡ true
        → beaten dominates (non_dominated dominates all) a ≡ true
    beaten-non_dominated all a h =
        rw (non_dominated-keep all)
          (beaten-survivor all (suc (count (λ b. dominates b a) all)) a (omega arith) h)
