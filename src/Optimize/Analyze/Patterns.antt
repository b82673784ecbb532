-- ===== src/Optimize/Analyze/Patterns.antt =====
-- internal/optimize/analyze.go: what the patterns of an analysis say of the runs.
use harnesslab.Runtime.{RunEvent}
use harnesslab.Store.{Run}
use harnesslab.Optimize.Analyze.{
  Pattern, Note, note, note_all, notes_of, gather, analyze, more_frequent,
}
use harnesslab.Shared.Float.{Floats}
use harnesslab.Shared.Sorting.{
  sort_slice-perm, All-sort_slice, IsStrictWeak, IsSorted, sort_slice-IsSorted,
}
use mathlib.Core.List.{Perm, append_assoc, append-nil, flat_map}
use text.Mathlib.TextEquality.{eq_iff}
use harnesslab.Shared.{
  String, ◌≡◌, refl, ◌∙◌, ap, sym, List, [], ◌∷◌, ◌++◌, ◌==◌, string_eq, if◌then◌else◌, Bool-cases,
  inl, inr, keep, All, length, length-append, map, arith,
}

-- The runs of the pattern `id`; none if there is no such pattern.
abbrev pub runs_of : String → List Pattern → List String
runs_of id [] = []
runs_of id (p ∷ ps) = if p.id == id then p.runs else runs_of id ps

-- The runs for which the pattern `id` is noted.
abbrev pub noted_runs : String → List Note → List String
noted_runs id ns = map (λ n. n.run) (keep (λ n. n.id == id) ns)

runs_of-note :
    (id : String) (n : Note) (ps : List Pattern)
    → runs_of id (note n ps) ≡ runs_of id ps ++ noted_runs id (n ∷ [])
unfolding note
runs_of-note id n [] = elim (Bool-cases (n.id == id)) [ inl e ↦ rw e refl | inr e ↦ rw e refl ]
runs_of-note id n (p ∷ ps) = elim (Bool-cases (p.id == n.id)) [
  | inl e ↦
      let q : (n.id == id) ≡ (p.id == id) =
        ap (λ (x : String). x == id) (sym ((eq_iff p.id n.id).0 e)) in
      elim (Bool-cases (p.id == id)) [
        | inl g ↦ rw (e, g, q ∙ g) refl
        | inr g ↦ rw (e, g, q ∙ g) (sym (append-nil (runs_of id ps)))
      ]
  | inr e ↦ elim (Bool-cases (p.id == id)) [
    | inr g ↦ rw (e, g) (runs_of-note id n ps)
    | inl g ↦ elim (Bool-cases (n.id == id)) [
      | inl k ↦ cc (e, (eq_iff p.id n.id).1 ((eq_iff p.id id).0 g ∙ sym ((eq_iff n.id id).0 k)))
      | inr k ↦ rw (e, g, k) (sym (append-nil p.runs))
    ]
  ]
]

-- A pattern counts its runs.
abbrev pub Counted : Pattern → Type 0
Counted p = p.count ≡ length p.runs

All-note : (n : Note) (ps : List Pattern) → All Counted ps → All Counted (note n ps)
unfolding note
All-note n [] h = (refl, tt)
All-note n (p ∷ ps) (h, k) = elim (Bool-cases (p.id == n.id)) [
  | inl e ↦ rw e (omega (arith, h, length-append p.runs (n.run ∷ [])), k)
  | inr e ↦ rw e (h, All-note n ps k)
]

noted_runs-append :
    (id : String) (ms ns : List Note)
    → noted_runs id (ms ++ ns) ≡ noted_runs id ms ++ noted_runs id ns
noted_runs-append id [] ns = refl
noted_runs-append id (m ∷ ms) ns = elim (Bool-cases (m.id == id)) [
  | inl e ↦ rw e (ap (λ l. m.run ∷ l) (noted_runs-append id ms ns))
  | inr e ↦ rw e (noted_runs-append id ms ns)
]

runs_of-note_all :
    (id : String) (ns : List Note) (ps : List Pattern)
    → runs_of id (note_all ns ps) ≡ runs_of id ps ++ noted_runs id ns
unfolding note_all
runs_of-note_all id [] ps = sym (append-nil (runs_of id ps))
runs_of-note_all id (n ∷ ns) ps =
    runs_of-note_all id ns (note n ps)
    ∙ ap (λ l. l ++ noted_runs id ns) (runs_of-note id n ps)
    ∙ append_assoc (runs_of id ps) (noted_runs id (n ∷ [])) (noted_runs id ns)
    ∙ ap (λ l. runs_of id ps ++ l) (sym (noted_runs-append id (n ∷ []) ns))

All-note_all : (ns : List Note) (ps : List Pattern) → All Counted ps → All Counted (note_all ns ps)
unfolding note_all
All-note_all [] ps h = h
All-note_all (n ∷ ns) ps h = All-note_all ns (note n ps) (All-note n ps h)

more_frequent-IsStrictWeak : IsStrictWeak more_frequent
more_frequent-IsStrictWeak = record {
  asym = λ x y h. ground arith;
  trans = λ x y z h k. ground arith;
}

module _ (F : Floats) (traces : String → List RunEvent) where
  runs_of-gather :
      (id : String) (rs : List (Run F)) (ps : List Pattern)
      → runs_of id (gather F traces rs ps)
        ≡ runs_of id ps ++ noted_runs id (flat_map (notes_of F traces) rs)
  unfolding gather flat_map
  runs_of-gather id [] ps = sym (append-nil (runs_of id ps))
  runs_of-gather id (r ∷ rs) ps =
      let ns = notes_of F traces r in
      let more = flat_map (notes_of F traces) rs in
      runs_of-gather id rs (note_all ns ps)
      ∙ ap (λ l. l ++ noted_runs id more) (runs_of-note_all id ns ps)
      ∙ append_assoc (runs_of id ps) (noted_runs id ns) (noted_runs id more)
      ∙ ap (λ l. runs_of id ps ++ l) (sym (noted_runs-append id ns more))

  All-gather :
      (rs : List (Run F)) (ps : List Pattern) → All Counted ps → All Counted (gather F traces rs ps)
  unfolding gather
  All-gather [] ps h = h
  All-gather (r ∷ rs) ps h =
      All-gather rs (note_all (notes_of F traces r) ps) (All-note_all (notes_of F traces r) ps h)

  -- The runs of a pattern that `Analyze` gathers (none if it gathers no such pattern) are, in order,
  -- those for which the pattern was noted.
  pub gather-noted :
      (id : String) (rs : List (Run F))
      → runs_of id (gather F traces rs []) ≡ noted_runs id (flat_map (notes_of F traces) rs)
  gather-noted id rs = runs_of-gather id rs []

  -- The patterns of an analysis are those gathered, the most frequent ones first, and each counts
  -- its runs.
  pub analyze-patterns :
      (rs : List (Run F))
      → (let found = (analyze F traces rs).patterns in
          Perm found (gather F traces rs []) × IsSorted more_frequent found × All Counted found)
  unfolding analyze
  analyze-patterns rs = (
    sort_slice-perm more_frequent (gather F traces rs []),
    sort_slice-IsSorted more_frequent more_frequent-IsStrictWeak (gather F traces rs []),
    All-sort_slice more_frequent Counted (gather F traces rs []) (All-gather rs [] tt),
  )
