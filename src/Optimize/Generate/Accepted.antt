-- ===== src/Optimize/Generate/Accepted.antt =====
-- internal/optimize/llm.go: what the candidates are that the loop over the proposals accepts.
use harnesslab.Optimize.Generate.{
  Proposal, Candidate, Generated, nothing_yet, SkipReason, was_seen, checked_spec, parse_spec,
  marshal_spec, name_for, mark_seen, consider_as, consider_all, checked, from_parsed, from_answer,
  GenerateError, generate_candidates, strip_fence,
}
use harnesslab.Spec.Types.{HarnessSpec}
use harnesslab.Spec.Validate.{Checked, validate}
use harnesslab.Spec.Valid.{validate-IsValid}
use harnesslab.Shared.Int64.{sle64}
use harnesslab.Shared.Float.{Floats}
use harnesslab.Shared.{
  ℕ, String, Bool, false, ◌≡◌, refl, Option, none, some, List, [], ◌∷◌, Bytes, bytes, if◌then◌else◌,
  if-cases, All, ◌==◌, string_eq, bytes_eq, nat_eq, ltb, length,
}
use harnesslab.Optimize.Generate.Names.{IsName, Distinct, name_for-IsName}
use harnesslab.Optimize.Generate.Sound.{
  IsUsable, files, Sound, IsUsable-weaken, mark_seen-Sound, add_candidate-Sound, skip-Sound,
}

module _ {M H : Type 0} (F : Floats) (is_duration : String → Bool) where
  module _ (text : Bytes → String) (is_empty : H → Bool) (marshal : H → Option Bytes)
      (unmarshal : Bytes → Option (HarnessSpec F)) where
    checked_spec-Sound :
        (name : Bytes) (metadata : M) (s : HarnessSpec F) (g : Generated F M H)
        → IsName name
        → was_seen name g ≡ false
        → Sound F is_duration g
        → (r : Checked (HarnessSpec F)) → validate F is_duration s ≡ r
        → Sound F is_duration (
            checked_spec F is_duration text is_empty marshal unmarshal name metadata r
              (mark_seen name g))
    checked_spec-Sound name metadata s g is_name fresh h (Checked.failed e) v =
        skip-Sound F is_duration name (SkipReason.spec (some e)) (mark_seen name g)
          (mark_seen-Sound F is_duration name g h)
    checked_spec-Sound name metadata s g is_name fresh h (Checked.passed t) v =
        add_candidate-Sound F is_duration text name metadata t g is_name fresh
          (validate-IsValid F is_duration s t v) h

    parse_spec-Sound :
        (name : Bytes) (metadata : M) (g : Generated F M H)
        → IsName name
        → was_seen name g ≡ false
        → Sound F is_duration g
        → (o : Option (HarnessSpec F))
        → Sound F is_duration (
            parse_spec F is_duration text is_empty marshal unmarshal name metadata o
              (mark_seen name g))
    parse_spec-Sound name metadata g is_name fresh h none =
        skip-Sound F is_duration name (SkipReason.spec none) (mark_seen name g)
          (mark_seen-Sound F is_duration name g h)
    parse_spec-Sound name metadata g is_name fresh h (some s) =
        checked_spec-Sound name metadata s g is_name fresh h (validate F is_duration s) refl

    marshal_spec-Sound :
        (name : Bytes) (metadata : M) (g : Generated F M H)
        → IsName name
        → was_seen name g ≡ false
        → Sound F is_duration g
        → (o : Option Bytes)
        → Sound F is_duration (
            marshal_spec F is_duration text is_empty marshal unmarshal name metadata o
              (mark_seen name g))
    marshal_spec-Sound name metadata g is_name fresh h none =
        skip-Sound F is_duration name SkipReason.remarshal (mark_seen name g)
          (mark_seen-Sound F is_duration name g h)
    marshal_spec-Sound name metadata g is_name fresh h (some body) =
        parse_spec-Sound name metadata g is_name fresh h (unmarshal body)

    consider_as-Sound :
        (name : Bytes) (p : Proposal F M H) (g : Generated F M H)
        → IsName name
        → Sound F is_duration g
        → Sound F is_duration (consider_as F is_duration text is_empty marshal unmarshal name p g)
    unfolding consider_as
    consider_as-Sound name p g is_name h =
        if-cases (Sound F is_duration) (was_seen name g)
          (λ _. skip-Sound F is_duration name SkipReason.duplicate_name g h)
          (λ fresh.
            if-cases (Sound F is_duration) (is_empty p.harness)
              (λ _.
                skip-Sound F is_duration name SkipReason.empty_harness (mark_seen name g)
                  (mark_seen-Sound F is_duration name g h))
              (λ _. marshal_spec-Sound name p.metadata g is_name fresh h (marshal p.harness)))

    consider_all-Sound :
        (ps : List (Proposal F M H)) (g : Generated F M H)
        → Sound F is_duration g
        → Sound F is_duration (consider_all F is_duration text is_empty marshal unmarshal ps g)
    unfolding consider_all
    consider_all-Sound [] g h = h
    consider_all-Sound (p ∷ ps) g h =
        let name = name_for p.name g in
        consider_all-Sound ps (consider_as F is_duration text is_empty marshal unmarshal name p g)
          (consider_as-Sound name p g (name_for-IsName p.name g) h)

    checked-Sound :
        (g : Generated F M H)
        → Sound F is_duration g
        → All (IsUsable F is_duration (λ _. Unit)) (checked g).0
          × Distinct (files F is_duration (checked g).0)
    checked-Sound g h =
        let fits : All (IsUsable F is_duration (λ _. Unit)) g.candidates
            × Distinct (files F is_duration g.candidates) =
          (IsUsable-weaken F is_duration (λ _ _. tt) g.candidates h.usable, h.distinct) in
        let P : List (Candidate F M H) × Option GenerateError → Type 0 =
          λ r. All (IsUsable F is_duration (λ _. Unit)) r.0 × Distinct (files F is_duration r.0) in
        if-cases P (length g.candidates == 0) (λ _. (tt, tt))
          (λ _. if-cases P (ltb 0 (length g.skipped)) (λ _. fits) (λ _. fits))

    from_parsed-Sound :
        (o : Option (List (Proposal F M H)))
        → All
            (IsUsable F is_duration (λ _. Unit))
            (from_parsed F is_duration text is_empty marshal unmarshal o).0
          × Distinct
              (files F is_duration (from_parsed F is_duration text is_empty marshal unmarshal o).0)
    unfolding from_parsed
    from_parsed-Sound none = (tt, tt)
    from_parsed-Sound (some []) = (tt, tt)
    from_parsed-Sound (some (p ∷ ps)) =
        let g = nothing_yet F M H in
        checked-Sound (consider_all F is_duration text is_empty marshal unmarshal (p ∷ ps) g)
          (consider_all-Sound (p ∷ ps) g (record { usable = tt; distinct = tt }))

    from_answer-Sound :
        (parse : Bytes → Option (List (Proposal F M H))) (answer : Option Bytes)
        → All
            (IsUsable F is_duration (λ _. Unit))
            (from_answer F is_duration text is_empty marshal unmarshal parse answer).0
          × Distinct (
              files F is_duration
                (from_answer F is_duration text is_empty marshal unmarshal parse answer).0)
    unfolding from_answer
    from_answer-Sound parse none = (tt, tt)
    from_answer-Sound parse (some out) = from_parsed-Sound (parse (strip_fence out))

    -- Whatever the model answers, every candidate that is returned is a valid specification in a file
    -- whose name is `candidate-`, a name of lower case letters, digits, dashes and underscores, and
    -- `.yaml`, and no two candidates have the same file.
    pub generate_candidates-IsUsable :
        (complete : ℕ → List Bytes → Option Bytes) (parse : Bytes → Option (List (Proposal F M H)))
        (lines : List Bytes) (n : ℕ)
        → let result =
            generate_candidates F is_duration text is_empty marshal unmarshal complete parse lines
              n in
          All (IsUsable F is_duration (λ _. Unit)) result.0
          × Distinct (files F is_duration result.0)
    unfolding generate_candidates
    generate_candidates-IsUsable complete parse lines n = from_answer-Sound parse (
        complete (if sle64 n 0 then 3 else n)
          (if length lines == 0 then bytes "- none detected" ∷ [] else lines))
