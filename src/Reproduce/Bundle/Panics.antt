-- ===== src/Reproduce/Bundle/Panics.antt =====
-- internal/reproduce/export.go: runs whose export stops the program.
use harnesslab.Store.{Run}
use harnesslab.Reproduce.Lock.{generate_lock}
use harnesslab.Reproduce.Bundle.{
  Archives, Exported, Coders, spec_text, parsed_spec, outcome, bundle, export_locked, export,
  or_nil, write_zip,
}
use harnesslab.Spec.Types.{HarnessSpec}
use harnesslab.Shared.Text.{bytes_beq}
use harnesslab.Shared.Float.{Floats}
use harnesslab.Shared.{
  Bool-cases, inl, inr, String, Bool, true, false, ◌≡◌, ◌↔◌, refl, Option, none, some, List, [],
  ◌∷◌, Bytes, bytes, bytes_eq, ◌==◌, string_eq, if◌then◌else◌,
}

module _ (F : Floats) (D : Archives) (c : Coders D F) (join : List String → String) (dir : String)
    (path : String) (run : Run F) (s : D.State) where
  abbrev IsStopped : Exported D.State → Type 0
  IsStopped e = e ≡ Exported.panicked

  outcome-not_panicked :
      (r : D.State × Bool)
      → IsStopped (outcome D F c join dir r) ↔ (Exported.exported r.0 ≡ Exported.panicked)
  outcome-not_panicked (s', true) = (λ h. h, λ h. h)
  outcome-not_panicked (s', false) = (λ h. absurd (cc h), λ h. absurd (cc h))

  locked-panicked :
      (o : Option (HarnessSpec F))
      → IsStopped (export_locked D F c join dir path run s (generate_lock F c.environment o))
        ↔ (o ≡ none)
  unfolding export_locked generate_lock
  locked-panicked none = (λ h. refl, λ h. refl)
  locked-panicked (some t) = (
    λ h.
        absurd
          (cc ((outcome-not_panicked (write_zip D path (bundle D F c join dir run s _) s)).0 h)),
    λ h. absurd (cc h),
  )

  -- No specification can be had from what was read of harness.yaml: it could not be read, is empty, or cannot
  -- be parsed.
  abbrev pub Useless : Option Bytes → Type 0
  Useless none = Unit
  Useless (some []) = Unit
  Useless (some (b ∷ text)) = c.parse_spec (b ∷ text) ≡ none

  fallback-Useless : (o : Option Bytes) → (parsed_spec D F c join dir (or_nil o) ≡ none) ↔ Useless o
  unfolding bytes_beq
  fallback-Useless none = (λ h. tt, λ h. refl)
  fallback-Useless (some []) = (λ h. tt, λ h. refl)
  fallback-Useless (some (b ∷ text)) = (λ h. h, λ h. h)

  -- No specification can be had for a run with this text, which is empty if it has none of its own.
  abbrev pub NoSpec : String → Option Bytes → Type 0
  NoSpec String.[] file = Useless file
  NoSpec (String.◌∷◌ a yaml) file = c.parse_spec (bytes (String.◌∷◌ a yaml)) ≡ none

  parsed_spec-NoSpec :
      (yaml : String) (file : Option Bytes)
      → (parsed_spec D F c join dir (if yaml == "" then or_nil file else bytes yaml) ≡ none)
        ↔ NoSpec yaml file
  unfolding bytes_beq
  parsed_spec-NoSpec String.[] file = fallback-Useless file
  parsed_spec-NoSpec (String.◌∷◌ a yaml) file = elim (Bool-cases (String.◌∷◌ a yaml == "")) [
    | inl e ↦ absurd (cc ((string_eq.decides (String.◌∷◌ a yaml) "").0 e))
    | inr e ↦ rw e (λ h. h, λ h. h)
  ]

  -- The export of a run with a specification of its own stops with a nil pointer exactly if that cannot be
  -- parsed; the export of a run without one exactly if the file harness.yaml of the harness directory cannot
  -- be read, is empty or cannot be parsed.
  pub export-panicked :
      (export D F c join dir path (some run) s ≡ Exported.panicked)
      ↔ NoSpec run.spec_yaml (D.read_file (join (dir ∷ "harness.yaml" ∷ [])) s)
  unfolding export
  export-panicked =
      let file = D.read_file (join (dir ∷ "harness.yaml" ∷ [])) s in
      let (stops, none_stops) =
        locked-panicked (parsed_spec D F c join dir (spec_text D F c join dir run s)) in
      let (no_spec, not_parsed) = parsed_spec-NoSpec run.spec_yaml file in
      (λ h. no_spec (stops h), λ h. none_stops (not_parsed h))
