-- ===== src/Optimize/Candidates.antt =====
-- internal/optimize/candidate.go: candidates in files. The file system and the package yaml are parameters; a
-- file of the directory carries what is read of it. `M` is the metadata.
pub mod Loading
mod Tests
use harnesslab.Optimize.Generate.{Candidate, SkipReason, file_of}
use harnesslab.Spec.Types.{HarnessSpec}
use harnesslab.Spec.Validate.{Checked, SpecError, validate}
use harnesslab.Shared.Float.{Floats}
use harnesslab.Shared.Lexical.{bytes_ltb}
use harnesslab.Shared.Scan.{has_prefix}
use harnesslab.Shared.Sorting.{sort_slice}
use harnesslab.Shared.{
  ℕ, ◌-◌, String, Bool, true, false, not, ◌&&◌, Option, none, some, List, [], ◌∷◌, Bytes, bytes,
  bytes_eq, nat_eq, ◌==◌, leb, length, drop, if◌then◌else◌,
}

-- `content` is nothing if the file cannot be read.
pub record CandidateEntry : Type 0 where
  pub is_dir : Bool
  pub name : Bytes
  pub content : Option Bytes

pub data Directory : Type 0 where
  missing unlisted : Directory
  entries : List CandidateEntry → Directory

pub data LoadError : Type 0 where
  not_read not_parsed not_marshalled not_unmarshalled : LoadError
  invalid : SpecError → LoadError

pub data LoadFailure : Type 0 where
  directory_failed : LoadFailure
  candidates_skipped : List (Bytes × LoadError) → LoadFailure

-- `strings.HasSuffix`
abbrev pub has_suffix : Bytes → Bytes → Bool
has_suffix s m = leb (length m) (length s) && drop (length s - length m) s == m

abbrev pub is_candidate : CandidateEntry → Bool
is_candidate e =
    not e.is_dir && has_prefix e.name (bytes "candidate-") && has_suffix e.name (bytes ".yaml")

-- The type of a proposal's harness plays no part in a candidate.
module _ (F : Floats) (M : Type 0) where
  abbrev pub Loaded : Type 0
  Loaded = List (Candidate F M Unit) × List (Bytes × LoadError)

  abbrev pub by_file : Candidate F M Unit → Candidate F M Unit → Bool
  by_file a b = bytes_ltb a.file b.file

module _ {M : Type 0} (F : Floats) (is_duration : String → Bool)
    (unmarshal_file : Bytes → Option (M × HarnessSpec F))
    (marshal_spec : HarnessSpec F → Option Bytes)
    (unmarshal_spec : Bytes → Option (HarnessSpec F)) where
  abbrev pub skipped_file : Bytes → LoadError → Loaded F M → Loaded F M
  skipped_file name e (out, errs) = (out, (name, e) ∷ errs)

  abbrev pub validated : Bytes → M → Checked (HarnessSpec F) → Loaded F M → Loaded F M
  validated name metadata (Checked.failed e) rest = skipped_file name (LoadError.invalid e) rest
  validated name metadata (Checked.passed s) (out, errs) =
      (record { file = name; metadata = metadata; spec = s } ∷ out, errs)

  -- `spec.Parse` of the body.
  abbrev pub parsed_body : Bytes → M → Option (HarnessSpec F) → Loaded F M → Loaded F M
  parsed_body name metadata none rest = skipped_file name LoadError.not_unmarshalled rest
  parsed_body name metadata (some s) rest = validated name metadata (validate F is_duration s) rest

  abbrev pub marshalled : Bytes → M → Option Bytes → Loaded F M → Loaded F M
  marshalled name metadata none rest = skipped_file name LoadError.not_marshalled rest
  marshalled name metadata (some body) rest = parsed_body name metadata (unmarshal_spec body) rest

  abbrev pub parsed_file : Bytes → Option (M × HarnessSpec F) → Loaded F M → Loaded F M
  parsed_file name none rest = skipped_file name LoadError.not_parsed rest
  parsed_file name (some (metadata, s)) rest = marshalled name metadata (marshal_spec s) rest

  abbrev pub read_content : Bytes → Option Bytes → Loaded F M → Loaded F M
  read_content name none rest = skipped_file name LoadError.not_read rest
  read_content name (some text) rest = parsed_file name (unmarshal_file text) rest

  -- The loop: what an entry gives stands before what the later ones give.
  unfoldable pub load_entries : List CandidateEntry → Loaded F M
  load_entries [] = ([], [])
  load_entries (e ∷ es) =
      let rest = load_entries es in
      if is_candidate e then read_content e.name e.content rest else rest

  abbrev pub finished : Loaded F M → List (Candidate F M Unit) × Option LoadFailure
  finished (out, e ∷ errs) = (out, some (LoadFailure.candidates_skipped (e ∷ errs)))
  finished (out, []) = (sort_slice (by_file F M) out, none)

  unfoldable pub load_candidates : Directory → List (Candidate F M Unit) × Option LoadFailure
  unfolding load_entries
  load_candidates Directory.missing = ([], none)
  load_candidates Directory.unlisted = ([], some LoadFailure.directory_failed)
  load_candidates (Directory.entries es) = finished (load_entries es)

pub data WriteError : Type 0 where
  not_encoded no_directory not_stored : WriteError

-- `WriteCandidate`: the text of the file, mkdir, the write of a file of the directory; the name of the file,
-- which is its path's last part, is returned.
abbrev pub after_write : {S : Type 0} → Bytes → S → Option S → (Bytes × Option WriteError) × S
after_write file s none = (([], some WriteError.not_stored), s)
after_write file s (some s') = ((file, none), s')

abbrev pub after_mkdir :
    {S : Type 0}
    → (Bytes → Bytes → S → Option S)
    → Bytes
    → Bytes
    → S
    → Option S
    → (Bytes × Option WriteError) × S
after_mkdir write file text s none = (([], some WriteError.no_directory), s)
after_mkdir write file text s (some s') = after_write file s' (write file text s')

unfoldable pub write_candidate :
    {S : Type 0}
    → (S → Option S)
    → (Bytes → Bytes → S → Option S)
    → Option Bytes
    → Bytes
    → S
    → (Bytes × Option WriteError) × S
write_candidate mkdir write none name s = (([], some WriteError.not_encoded), s)
write_candidate mkdir write (some text) name s = after_mkdir write (file_of name) text s (mkdir s)
