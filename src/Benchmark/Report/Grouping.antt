-- ===== src/Benchmark/Report/Grouping.antt =====
-- internal/benchmark/report.go: the outcomes by variant, as a reference for `add`.
use harnesslab.Benchmark.Report.{
  Outcome, VariantResult, new_variant, variant_name, record_outcome, change_variant, add_outcome,
  add_outcomes,
}
use harnesslab.Shared.Float.{Floats}
use text.Mathlib.TextEquality.{eq_iff}
use harnesslab.Shared.{
  String, ◌≡◌, refl, ◌∙◌, ap, true, false, List, [], ◌∷◌, ◌==◌, string_eq, if◌then◌else◌,
  Bool-cases, inl, inr, keep,
}

module _ (F : Floats) where
  -- The entry of a variant in the report; a fresh one if the report has none.
  abbrev pub entry_of : String → List (VariantResult F) → VariantResult F
  entry_of name [] = new_variant F name
  entry_of name (v ∷ vs) = if v.variant == name then v else entry_of name vs

  -- The outcomes of a variant.
  abbrev pub outcomes_of : String → List (Outcome F) → List (Outcome F)
  outcomes_of name = keep (λ o. variant_name F o == name)

  module _ (add : F.Float → F.Float → F.Float) where
    -- The reference: all outcomes of a list recorded in one entry.
    abbrev pub record_all : List (Outcome F) → VariantResult F → VariantResult F
    record_all [] v = v
    record_all (o ∷ os) v = record_all os (record_outcome F add o v)

    entry_of-same :
        (name : String) (o : Outcome F) (vs : List (VariantResult F))
        → entry_of name (change_variant F name (record_outcome F add o) vs)
          ≡ record_outcome F add o (entry_of name vs)
    unfolding change_variant record_outcome
    entry_of-same name o [] = rw ((eq_iff name name).1 refl) refl
    entry_of-same name o (v ∷ vs) = elim (Bool-cases (v.variant == name)) [
      | inl e ↦ rw (e, e) refl
      | inr e ↦ rw (e, e) (entry_of-same name o vs)
    ]

    entry_of-other :
        (m name : String) (o : Outcome F) (vs : List (VariantResult F))
        → (m == name) ≡ false
        → entry_of name (change_variant F m (record_outcome F add o) vs) ≡ entry_of name vs
    unfolding change_variant record_outcome
    entry_of-other m name o [] h = rw h refl
    entry_of-other m name o (v ∷ vs) h = elim (Bool-cases (v.variant == m)) [
      | inl e ↦
          let q : (v.variant == name) ≡ false =
            ap (λ (x : String). x == name) ((eq_iff v.variant m).0 e) ∙ h in
          rw (e, q) refl
      | inr e ↦ rw e (elim (Bool-cases (v.variant == name)) [
        | inl g ↦ rw g refl
        | inr g ↦ rw g (entry_of-other m name o vs h)
      ])
    ]

    entry_of-joined :
        (name : String) (o : Outcome F) (vs : List (VariantResult F))
        → (variant_name F o == name) ≡ true
        → entry_of name (add_outcome F add o vs) ≡ record_outcome F add o (entry_of name vs)
    unfolding add_outcome
    entry_of-joined name o vs h =
        ap (λ m. entry_of name (change_variant F m (record_outcome F add o) vs))
          ((eq_iff (variant_name F o) name).0 h)
        ∙ entry_of-same name o vs

    entry_of-add_outcomes :
        (name : String) (os : List (Outcome F)) (vs : List (VariantResult F))
        → entry_of name (add_outcomes F add os vs)
          ≡ record_all (outcomes_of name os) (entry_of name vs)
    unfolding add_outcomes
    entry_of-add_outcomes name [] vs = refl
    entry_of-add_outcomes name (o ∷ os) vs = elim (Bool-cases (variant_name F o == name)) [
      | inl e ↦
          entry_of-add_outcomes name os (add_outcome F add o vs)
          ∙ rw e (ap (record_all (outcomes_of name os)) (entry_of-joined name o vs e))
      | inr e ↦
          entry_of-add_outcomes name os (add_outcome F add o vs)
          ∙ rw e (
              ap (record_all (outcomes_of name os)) (entry_of-other (variant_name F o) name o vs e))
    ]

    -- In the report on any outcomes, the entry of a variant is that of its outcomes alone, recorded
    -- in their order; the outcomes of other variants have no influence on it.
    pub add_outcomes-grouped :
        (name : String) (os : List (Outcome F))
        → entry_of name (add_outcomes F add os [])
          ≡ record_all (outcomes_of name os) (new_variant F name)
    add_outcomes-grouped name os = entry_of-add_outcomes name os []
