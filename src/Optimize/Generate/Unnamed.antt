-- ===== src/Optimize/Generate/Unnamed.antt =====
-- internal/optimize/llm.go: proposals without a name, which get the number of the next candidate.
use harnesslab.Optimize.Generate.{
  Proposal, Generated, SkipReason, was_seen, skip, mark_seen, name_for, consider_as, consider_all,
}
use harnesslab.Spec.Types.{HarnessSpec}
use harnesslab.Shared.Float.{Floats}
use harnesslab.Shared.Text.{bytes_beq_refl}
use harnesslab.Shared.{
  String, Bool, true, false, ◌≡◌, refl, ap, ◌∙◌, Option, List, [], ◌∷◌, Bytes, Bool-cases, inl, inr,
  All, In, any-In, ◌==◌, bytes_eq,
}

module _ {M H : Type 0} (F : Floats) (is_duration : String → Bool) (text : Bytes → String)
    (is_empty : H → Bool) (marshal : H → Option Bytes)
    (unmarshal : Bytes → Option (HarnessSpec F)) where
  abbrev pub IsUnnamed : Proposal F M H → Type 0
  IsUnnamed p = p.name ≡ []

  as_named :
      (p : Proposal F M H) (g g' : Generated F M H)
      → IsUnnamed p
      → consider_as F is_duration text is_empty marshal unmarshal (name_for [] g) p g ≡ g'
      → consider_as F is_duration text is_empty marshal unmarshal (name_for p.name g) p g ≡ g'
  as_named p g g' u e =
      ap (λ n. consider_as F is_duration text is_empty marshal unmarshal (name_for n g) p g) u ∙ e

  seen_before :
      (name : Bytes) (p : Proposal F M H) (g : Generated F M H)
      → was_seen name g ≡ true
      → consider_as F is_duration text is_empty marshal unmarshal name p g
        ≡ skip name SkipReason.duplicate_name g
  unfolding consider_as
  seen_before name p g e = rw e refl

  empty_harness_skipped :
      (name : Bytes) (p : Proposal F M H) (g : Generated F M H)
      → was_seen name g ≡ false
      → is_empty p.harness ≡ true
      → consider_as F is_duration text is_empty marshal unmarshal name p g
        ≡ skip name SkipReason.empty_harness (mark_seen name g)
  unfolding consider_as
  empty_harness_skipped name p g e empty = rw (e, empty) refl

  no_more_names :
      (ps : List (Proposal F M H)) (g : Generated F M H)
      → All IsUnnamed ps
      → was_seen (name_for [] g) g ≡ true
      → (consider_all F is_duration text is_empty marshal unmarshal ps g).candidates ≡ g.candidates
  unfolding consider_all
  no_more_names [] g h e = refl
  no_more_names (p ∷ ps) g (u, h) e =
      let g' = skip (name_for [] g) SkipReason.duplicate_name g in
      ap (λ k. (consider_all F is_duration text is_empty marshal unmarshal ps k).candidates)
        (as_named p g g' u (seen_before (name_for [] g) p g e))
      ∙ no_more_names ps g' h e

  -- After a proposal without a name whose harness is empty, no proposal without a name becomes a candidate,
  -- whatever its harness is, as long as only such proposals follow.
  pub consider_all-unnamed :
      (p : Proposal F M H) (ps : List (Proposal F M H)) (g : Generated F M H)
      → IsUnnamed p
      → is_empty p.harness ≡ true
      → All IsUnnamed ps
      → (consider_all F is_duration text is_empty marshal unmarshal (p ∷ ps) g).candidates
        ≡ g.candidates
  unfolding consider_all
  consider_all-unnamed p ps g u empty h =
      let name = name_for [] g in
      elim (Bool-cases (was_seen name g)) [
        | inl e ↦ no_more_names (p ∷ ps) g (u, h) e
        | inr e ↦
            let g' = skip name SkipReason.empty_harness (mark_seen name g) in
            ap (λ k. (consider_all F is_duration text is_empty marshal unmarshal ps k).candidates)
              (as_named p g g' u (empty_harness_skipped name p g e empty))
            ∙ no_more_names ps g' h (any-In (λ n. n == name) (In.here refl) (bytes_beq_refl name))
      ]
