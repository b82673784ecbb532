-- ===== src/Optimize/Eval/Gate.antt =====
-- internal/optimize/eval.go: what `Recommend` accepts.
use harnesslab.Optimize.Eval.{
  EvalResult, Recommendation, select_candidates, reject_rule, find_baseline, by_name, judge,
  judge_all, no_result, recommend,
}
use harnesslab.Shared.Float.{Floats}
use mathlib.Core.Path.{subst}
use text.Mathlib.TextEquality.{eq_iff}
use harnesslab.Shared.{
  ℕ, ◌+◌, ◌≡◌, refl, ◌∙◌, sym, String, Bool, false, not, Option, none, some, List, [], ◌∷◌, keep,
  count, length, length-append, All, All-append, arith, if◌then◌else◌, if-cases, ◌==◌, string_eq,
  Bool-cases, inl, inr, In, here, there, ◌≢◌,
}

module _ (F : Floats) where
  open F use {Float, flt, fle}

  -- The holdout result `h` of a candidate of the front that is not called "baseline" and that the
  -- rule does not reject against the success rate `base`.
  pub record IsApproved (base : Float) (front holdout : List (EvalResult F)) (h : EvalResult F)
      : Type 0 where
    pub candidate : EvalResult F
    pub selected : In candidate front
    pub named : candidate.variant ≢ "baseline"
    pub tested : by_name F none candidate.variant holdout ≡ some h
    pub kept : reject_rule F base candidate.pass base h.pass ≡ false

  judge-All :
      (front holdout : List (EvalResult F)) (f : EvalResult F) (rec : Recommendation F)
      → In f front
      → f.variant ≢ "baseline"
      → All (IsApproved rec.baseline.pass front holdout) rec.accepted
      → (found : Option (EvalResult F)) → by_name F none f.variant holdout ≡ found
      → All (IsApproved rec.baseline.pass front holdout) (judge F f found rec).accepted
  unfolding judge
  judge-All front holdout f rec i ne a none e = a
  judge-All front holdout f rec i ne a (some h) e =
      if-cases
        (λ (r : Recommendation F). All (IsApproved rec.baseline.pass front holdout) r.accepted)
        (reject_rule F rec.baseline.pass f.pass rec.baseline.pass h.pass) (λ _. a)
        (λ ok.
          All-append (IsApproved rec.baseline.pass front holdout) rec.accepted (h ∷ []) a
            (record { candidate = f; selected = i; named = ne; tested = e; kept = ok }, tt))

  judge-baseline :
      (f : EvalResult F) (found : Option (EvalResult F)) (rec : Recommendation F)
      → (judge F f found rec).baseline ≡ rec.baseline
  unfolding judge
  judge-baseline f none rec = refl
  judge-baseline f (some h) rec = ground arith

  -- A round of the loop: a result called "baseline" is passed over.
  abbrev round : List (EvalResult F) → EvalResult F → Recommendation F → Recommendation F
  round holdout f rec =
      if f.variant == "baseline" then rec else judge F f (by_name F none f.variant holdout) rec

  abbrev Approved :
      EvalResult F → List (EvalResult F) → List (EvalResult F) → Recommendation F → Type 0
  Approved b front holdout rec =
      (rec.baseline ≡ b) × All (IsApproved b.pass front holdout) rec.accepted

  round-Approved :
      (b : EvalResult F) (front holdout : List (EvalResult F)) (f : EvalResult F)
      (rec : Recommendation F)
      → In f front
      → Approved b front holdout rec
      → Approved b front holdout (round holdout f rec)
  round-Approved b front holdout f rec i (e, a) =
      if-cases (Approved b front holdout) (f.variant == "baseline") (λ _. (e, a))
        (λ other. (
          judge-baseline f (by_name F none f.variant holdout) rec ∙ e,
          subst
              (λ (c : EvalResult F).
                All (IsApproved c.pass front holdout)
                  (judge F f (by_name F none f.variant holdout) rec).accepted)
              e
              (judge-All front holdout f rec i (λ same. cc (other, (eq_iff _ _).1 same))
                (subst (λ (c : EvalResult F). All (IsApproved c.pass front holdout) rec.accepted)
                  (sym e) a)
                (by_name F none f.variant holdout) refl),
        ))

  judge_all-Approved :
      (b : EvalResult F) (front holdout fs : List (EvalResult F)) (rec : Recommendation F)
      → ((c : EvalResult F) → In c fs → In c front)
      → Approved b front holdout rec
      → Approved b front holdout (judge_all F holdout fs rec)
  unfolding judge_all
  judge_all-Approved b front holdout [] rec sub a = a
  judge_all-Approved b front holdout (f ∷ fs) rec sub a =
      judge_all-Approved b front holdout fs (round holdout f rec) (λ c i. sub c (there i))
        (round-Approved b front holdout f rec (sub f (here refl)) a)

  -- Every accepted result is the last holdout result of a candidate other than the baseline which
  -- is on the front of the development results, and it is not rejected against the success rate that
  -- the baseline has in the development results.
  pub recommend-IsApproved :
      (dev holdout : List (EvalResult F))
      → All
          (IsApproved (find_baseline F (no_result F) dev).pass (select_candidates F dev) holdout)
          (recommend F dev holdout).accepted
  unfolding recommend
  recommend-IsApproved dev holdout =
      (judge_all-Approved (find_baseline F (no_result F) dev) (select_candidates F dev) holdout
        (select_candidates F dev) _ (λ c i. i) (refl, tt)).1

  -- Whether a result is one of a candidate, not of the baseline.
  abbrev pub other : EvalResult F → Bool
  other r = not (r.variant == "baseline")

  abbrev decided : Recommendation F → ℕ
  decided rec = length rec.accepted + length rec.rejected

  round-decided :
      (holdout : List (EvalResult F)) (f : EvalResult F) (rec : Recommendation F)
      → (found : Option (EvalResult F)) → decided (judge F f found rec) ≡ decided rec + 1
  unfolding judge
  round-decided holdout f rec none = omega (arith, length-append rec.rejected (f ∷ []))
  round-decided holdout f rec (some h) =
      ground (arith, length-append rec.rejected (f ∷ []), length-append rec.accepted (h ∷ []))

  judge_all-decided :
      (holdout fs : List (EvalResult F)) (rec : Recommendation F)
      → decided (judge_all F holdout fs rec) ≡ decided rec + count other fs
  unfolding judge_all
  judge_all-decided holdout [] rec = omega arith
  judge_all-decided holdout (f ∷ fs) rec = ground (
    arith,
    judge_all-decided holdout fs (round holdout f rec),
    round-decided holdout f rec (by_name F none f.variant holdout),
  )

  -- Every candidate of the front, the baseline excepted, is accepted or rejected, once.
  pub recommend-decided :
      (dev holdout : List (EvalResult F))
      → length (recommend F dev holdout).accepted + length (recommend F dev holdout).rejected
        ≡ count other (select_candidates F dev)
  unfolding recommend
  recommend-decided dev holdout = omega (
    arith,
    judge_all-decided holdout (select_candidates F dev)
        (record { baseline = find_baseline F (no_result F) dev; accepted = []; rejected = [] }),
  )

  by_name-other :
      (found : Option (EvalResult F)) (name : String) (hs : List (EvalResult F))
      → name ≢ "baseline"
      → by_name F found name hs ≡ by_name F found name (keep other hs)
  unfolding by_name
  by_name-other found name [] ne = refl
  by_name-other found name (h ∷ hs) ne = ground (
    arith,
    by_name-other found name hs ne,
    by_name-other (some h) name hs ne,
    eq_iff h.variant name,
    eq_iff h.variant "baseline",
  )

  judge_all-other :
      (holdout fs : List (EvalResult F)) (rec : Recommendation F)
      → judge_all F holdout fs rec ≡ judge_all F (keep other holdout) fs rec
  unfolding judge_all
  judge_all-other holdout [] rec = refl
  judge_all-other holdout (f ∷ fs) rec = elim (Bool-cases (f.variant == "baseline")) [
    | inl e ↦ rw e (judge_all-other holdout fs rec)
    | inr e ↦
        let same = by_name-other none f.variant holdout (λ q. cc (e, (eq_iff _ _).1 q)) in
        rw (e, same)
          (judge_all-other holdout fs
            (judge F f (by_name F none f.variant (keep other holdout)) rec))
  ]

  -- The baseline's own holdout results have no influence on the recommendation.
  pub recommend-holdout_baseline :
      (dev holdout : List (EvalResult F))
      → recommend F dev holdout ≡ recommend F dev (keep other holdout)
  unfolding recommend
  recommend-holdout_baseline dev holdout = judge_all-other holdout (select_candidates F dev) _
