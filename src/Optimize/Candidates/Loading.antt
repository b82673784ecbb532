-- ===== src/Optimize/Candidates/Loading.antt =====
-- internal/optimize/candidate.go: what `LoadCandidates` returns.
use harnesslab.Optimize.Generate.{Candidate}
use harnesslab.Optimize.Candidates.{
  CandidateEntry, Directory, LoadFailure, is_candidate, validated, parsed_body, marshalled,
  parsed_file, read_content, load_entries, by_file, finished, load_candidates, Loaded,
}
use harnesslab.Spec.Types.{HarnessSpec}
use harnesslab.Spec.Validate.{Checked, validate}
use harnesslab.Spec.Valid.{IsValid, validate-IsValid}
use harnesslab.Shared.Float.{Floats}
use harnesslab.Shared.Lexical.{by_text-IsStrictWeak}
use harnesslab.Shared.Sorting.{IsSorted, sort_slice-IsSorted, length-sort_slice, All-sort_slice}
use harnesslab.Shared.{
  ℕ, ◌+◌, String, Bool, ◌≡◌, refl, Option, none, some, List, [], ◌∷◌, Bytes, All, count, length,
  Bool-cases, inl, inr, arith,
}

module _ {M : Type 0} (F : Floats) (is_duration : String → Bool)
    (unmarshal_file : Bytes → Option (M × HarnessSpec F))
    (marshal_spec : HarnessSpec F → Option Bytes)
    (unmarshal_spec : Bytes → Option (HarnessSpec F)) where
  abbrev pub IsLoaded : Candidate F M Unit → Type 0
  IsLoaded c = IsValid F is_duration c.spec

  -- The candidates are valid, and with the files that were skipped they are `n`.
  abbrev Accounted : ℕ → Loaded F M → Type 0
  Accounted n (out, errs) = All IsLoaded out × (length out + length errs ≡ n)

  validated-Accounted :
      (name : Bytes) (metadata : M) (s : HarnessSpec F) (c : Checked (HarnessSpec F)) (n : ℕ)
      (rest : Loaded F M)
      → validate F is_duration s ≡ c
      → Accounted n rest
      → Accounted
          (1 + n)
          (validated F is_duration unmarshal_file marshal_spec unmarshal_spec name metadata c rest)
  validated-Accounted name metadata s (Checked.failed e) n (out, errs) v (h, k) = (h, omega arith)
  validated-Accounted name metadata s (Checked.passed t) n (out, errs) v (h, k) =
      ((validate-IsValid F is_duration s t v, h), omega arith)

  parsed_body-Accounted :
      (name : Bytes) (metadata : M) (o : Option (HarnessSpec F)) (n : ℕ) (rest : Loaded F M)
      → Accounted n rest
      → Accounted (1 + n) (
          parsed_body F is_duration unmarshal_file marshal_spec unmarshal_spec name metadata o rest)
  parsed_body-Accounted name metadata none n (out, errs) (h, k) = (h, omega arith)
  parsed_body-Accounted name metadata (some s) n rest h =
      validated-Accounted name metadata s (validate F is_duration s) n rest refl h

  marshalled-Accounted :
      (name : Bytes) (metadata : M) (o : Option Bytes) (n : ℕ) (rest : Loaded F M)
      → Accounted n rest
      → Accounted
          (1 + n)
          (marshalled F is_duration unmarshal_file marshal_spec unmarshal_spec name metadata o rest)
  marshalled-Accounted name metadata none n (out, errs) (h, k) = (h, omega arith)
  marshalled-Accounted name metadata (some body) n rest h =
      parsed_body-Accounted name metadata (unmarshal_spec body) n rest h

  parsed_file-Accounted :
      (name : Bytes) (o : Option (M × HarnessSpec F)) (n : ℕ) (rest : Loaded F M)
      → Accounted n rest
      → Accounted
          (1 + n)
          (parsed_file F is_duration unmarshal_file marshal_spec unmarshal_spec name o rest)
  parsed_file-Accounted name none n (out, errs) (h, k) = (h, omega arith)
  parsed_file-Accounted name (some (metadata, s)) n rest h =
      marshalled-Accounted name metadata (marshal_spec s) n rest h

  read_content-Accounted :
      (name : Bytes) (o : Option Bytes) (n : ℕ) (rest : Loaded F M)
      → Accounted n rest
      → Accounted
          (1 + n)
          (read_content F is_duration unmarshal_file marshal_spec unmarshal_spec name o rest)
  read_content-Accounted name none n (out, errs) (h, k) = (h, omega arith)
  read_content-Accounted name (some text) n rest h =
      parsed_file-Accounted name (unmarshal_file text) n rest h

  load_entries-Accounted :
      (es : List CandidateEntry)
      → Accounted
          (count is_candidate es)
          (load_entries F is_duration unmarshal_file marshal_spec unmarshal_spec es)
  unfolding load_entries
  load_entries-Accounted [] = (tt, refl)
  load_entries-Accounted (e ∷ es) =
      let rest = load_entries-Accounted es in
      elim (Bool-cases (is_candidate e)) [
        | inl c ↦ rw c (
            read_content-Accounted e.name e.content (count is_candidate es)
              (load_entries F is_duration unmarshal_file marshal_spec unmarshal_spec es) rest)
        | inr c ↦ rw c (rest.0, omega (arith, rest.1))
      ]

  -- What the caller gets: valid candidates, and without an error all files of candidates, in their order.
  abbrev Delivered : ℕ → List (Candidate F M Unit) × Option LoadFailure → Type 0
  Delivered n (out, err) =
      All IsLoaded out × (err ≡ none → IsSorted (by_file F M) out × (length out ≡ n))

  finished-Delivered :
      (n : ℕ) (r : Loaded F M)
      → Accounted n r
      → Delivered n (finished F is_duration unmarshal_file marshal_spec unmarshal_spec r)
  finished-Delivered n (out, e ∷ errs) (h, k) = (h, λ q. absurd (cc q))
  finished-Delivered n (out, []) (h, k) =
      let less = by_file F M in
      (
        All-sort_slice less IsLoaded out h,
        λ q. (
          sort_slice-IsSorted less (by_text-IsStrictWeak (λ (c : Candidate F M Unit). c.file)) out,
          omega (arith, length-sort_slice less out),
        ),
      )

  -- Every candidate that is loaded from a directory is valid, also if there is an error; and without one, they
  -- are as many as the files named candidate-, anything, .yaml, in the order of their names.
  pub load_candidates-IsLoaded :
      (es : List CandidateEntry)
      → All IsLoaded
          (load_candidates F is_duration unmarshal_file marshal_spec unmarshal_spec
            (Directory.entries es)).0
        × ((load_candidates F is_duration unmarshal_file marshal_spec unmarshal_spec
                (Directory.entries es)).1
              ≡ none
            → IsSorted
                (by_file F M)
                (load_candidates F is_duration unmarshal_file marshal_spec unmarshal_spec
                  (Directory.entries es)).0
              × (length
                    (load_candidates F is_duration unmarshal_file marshal_spec unmarshal_spec
                      (Directory.entries es)).0
                  ≡ count is_candidate es))
  unfolding load_candidates
  load_candidates-IsLoaded es =
      finished-Delivered (count is_candidate es)
        (load_entries F is_duration unmarshal_file marshal_spec unmarshal_spec es)
        (load_entries-Accounted es)
