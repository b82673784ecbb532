-- ===== src/Optimize/Candidates/Tests.antt =====
-- internal/optimize/candidate.go: a directory with two candidates, a file that is none and one that is broken.
use harnesslab.Optimize.Generate.{Candidate}
use harnesslab.Optimize.Candidates.{
  CandidateEntry, Directory, LoadError, LoadFailure, WriteError, is_candidate, by_file,
  load_entries, load_candidates, write_candidate,
}
use harnesslab.Optimize.Candidates.Loading.{IsLoaded, load_candidates-IsLoaded}
use harnesslab.Spec.Types.{HarnessSpec}
use harnesslab.Spec.Tests.{is_duration, minimal}
use harnesslab.Spec.Validate.{validate, and_then}
use harnesslab.Shared.Lexical.{bytes_ltb}
use harnesslab.Shared.Float.{whole_floats}
use harnesslab.Shared.Sorting.{IsSorted, sort_slice}
use harnesslab.Shared.Text.{bytes_beq}
use harnesslab.Shared.{
  false, ◌≡◌, refl, Option, none, some, List, [], ◌∷◌, Bytes, bytes, bytes_eq, ◌==◌, All, count,
  length, map, if◌then◌else◌,
}

abbrev entry : Bytes → Bytes → CandidateEntry
entry name text = record { is_dir = false; name = name; content = some text }

abbrev two : List CandidateEntry
two =
    entry (bytes "candidate-b.yaml") (bytes "minimal")
    ∷ entry (bytes "notes.md") []
    ∷ entry (bytes "candidate-a.yaml") (bytes "minimal")
    ∷ []

abbrev unmarshal : Bytes → Option (Unit {0} × HarnessSpec whole_floats)
unmarshal text = if text == bytes "minimal" then some (tt, minimal) else none

abbrev marshal : HarnessSpec whole_floats → Option Bytes
marshal s = some (bytes "minimal")

abbrev unmarshal_body : Bytes → Option (HarnessSpec whole_floats)
unmarshal_body body = some minimal

abbrev load :
    List CandidateEntry → List (Candidate whole_floats (Unit {0}) (Unit {0})) × Option LoadFailure
load es =
    load_candidates whole_floats is_duration unmarshal marshal unmarshal_body (Directory.entries es)

sorted_files :
    map (λ c. c.file) (load two).0 ≡ bytes "candidate-a.yaml" ∷ bytes "candidate-b.yaml" ∷ []
unfolding load_candidates load_entries validate and_then sort_slice bytes_ltb bytes_beq whole_floats
sorted_files = refl

broken_skipped :
    (load (entry (bytes "candidate-c.yaml") [] ∷ two)).1
    ≡ some (LoadFailure.candidates_skipped ((bytes "candidate-c.yaml", LoadError.not_parsed) ∷ []))
unfolding load_candidates load_entries validate and_then bytes_beq whole_floats
broken_skipped = refl

load_candidates-IsLoaded_example :
    All (IsLoaded whole_floats is_duration unmarshal marshal unmarshal_body) (load two).0
    × ((load two).1 ≡ none
        → IsSorted (by_file whole_floats (Unit {0})) (load two).0
          × (length (load two).0 ≡ count is_candidate two))
load_candidates-IsLoaded_example =
    load_candidates-IsLoaded whole_floats is_duration unmarshal marshal unmarshal_body two

-- The write is refused.
stored_nothing :
    (write_candidate
      (λ s. some s)
      (λ file text s. none)
      (some (bytes "text"))
      (bytes "x")
      (bytes "state")).0
    ≡ ([], some WriteError.not_stored)
unfolding write_candidate
stored_nothing = refl
