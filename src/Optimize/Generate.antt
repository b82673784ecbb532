-- ===== src/Optimize/Generate.antt =====
-- internal/optimize/llm.go: the candidates that a model proposes. The model and the package
-- yaml (the parser of the answer, marshal and unmarshal) are parameters.
-- A name is the list of its runes.
mod Names
pub mod Sound
pub mod Accepted
pub mod Unnamed
mod Tests
use harnesslab.Shared.Float.{Floats}
use harnesslab.Spec.Types.{HarnessSpec}
use harnesslab.Spec.Validate.{Checked, SpecError, validate}
use harnesslab.Shared.Format.{decimal, zero_digits}
use harnesslab.Shared.Scan.{has_prefix, trim_space}
use harnesslab.Shared.Int64.{sle64}
use harnesslab.Shared.Text.{bytes_beq}
use harnesslab.Shared.{
  ℕ, zero, suc, ◌+◌, ◌-◌, Bool, true, false, not, ◌&&◌, ◌||◌, Option, none, some, List, [], ◌∷◌,
  ◌++◌, Bytes, bytes, bytes_eq, string_eq, String, nat_eq, ◌==◌, leb, ltb, length, take, drop, any,
  map, if◌then◌else◌,
}

abbrev index_after : Option ℕ → Option ℕ
index_after none = none
index_after (some i) = some (suc i)

-- `strings.IndexByte`
abbrev index_byte : ℕ → Bytes → Option ℕ
index_byte c [] = none
index_byte c (b ∷ s) = let rest = index_after (index_byte c s) in if b == c then some 0 else rest

abbrev later_index : Bool → Option ℕ → Option ℕ
later_index hit (some i) = some (suc i)
later_index hit none = if hit then some 0 else none

-- `strings.LastIndex`
abbrev last_index : Bytes → Bytes → Option ℕ
last_index [] m = if has_prefix [] m then some 0 else none
last_index (b ∷ s) m = later_index (has_prefix (b ∷ s) m) (last_index s m)

abbrev fence : Bytes
fence = bytes "```"

abbrev after_line : Option ℕ → Bytes → Bytes
after_line none s = s
after_line (some i) s = drop (i + 1) s

abbrev before_fence : Option ℕ → Bytes → Bytes
before_fence none s = s
before_fence (some i) s = take i s

unfoldable pub strip_fence : Bytes → Bytes
strip_fence s0 =
    let s = trim_space s0 in
    let body = after_line (index_byte 10 s) s in
    trim_space (if has_prefix s fence then before_fence (last_index body fence) body else s)

abbrev pub is_name_char : ℕ → Bool
is_name_char r = leb b'a' r && leb r b'z' || leb b'0' r && leb r b'9' || r == b'-' || r == b'_'

abbrev pub dashed : Bytes → Bytes
dashed [] = []
dashed (r ∷ s) = (if is_name_char r then r else b'-') ∷ dashed s

abbrev pub skip_dashes : Bytes → Bytes
skip_dashes [] = []
skip_dashes (r ∷ s) = let rest = skip_dashes s in if r == b'-' then rest else r ∷ s

abbrev pub put_before : ℕ → Bytes → Bytes
put_before r [] = if r == b'-' then [] else r ∷ []
put_before r (q ∷ s) = r ∷ q ∷ s

abbrev pub drop_dashes : Bytes → Bytes
drop_dashes [] = []
drop_dashes (r ∷ s) = put_before r (drop_dashes s)

unfoldable pub sanitize_name : Bytes → Bytes
sanitize_name s = drop_dashes (skip_dashes (dashed (trim_space s)))

-- `candidate-%03d`
unfoldable pub default_name : ℕ → Bytes
unfolding decimal
default_name n = bytes "candidate-" ++ (zero_digits (3 - length (decimal n)) ++ decimal n)

pub data SkipReason : Type 0 where
  duplicate_name empty_harness remarshal : SkipReason
  spec : Option SpecError → SkipReason

abbrev pub file_of : Bytes → Bytes
file_of name = bytes "candidate-" ++ (name ++ bytes ".yaml")

pub data GenerateError : Type 0 where
  no_answer not_parsed no_candidates : GenerateError
  none_valid some_skipped : List (Bytes × SkipReason) → GenerateError

-- `M` is the metadata, `H` the harness of a proposal, a map of YAML values.
module _ (F : Floats) (M H : Type 0) where
  -- `llmCandidate`
  pub record Proposal : Type 0 where
    pub name : Bytes
    pub metadata : M
    pub harness : H

  pub record Candidate : Type 0 where
    pub file : Bytes
    pub metadata : M
    pub spec : HarnessSpec F

  -- The variables of the loop.
  pub record Generated : Type 0 where
    pub candidates : List Candidate
    pub skipped : List (Bytes × SkipReason)
    pub seen : List Bytes

  abbrev pub nothing_yet : Generated
  nothing_yet = record { candidates = []; skipped = []; seen = [] }

-- `text` is the string of a list of runes.
abbrev pub with_name : (F : Floats) → (Bytes → String) → Bytes → HarnessSpec F → HarnessSpec F
with_name F text name s = if s.name == "" then record s { name = text name } else s

module _ {F : Floats} {M H : Type 0} where
  abbrev pub was_seen : Bytes → Generated F M H → Bool
  was_seen name g = any (λ n. n == name) g.seen

  abbrev pub skip : Bytes → SkipReason → Generated F M H → Generated F M H
  skip name reason g = record g { skipped = g.skipped ++ (name, reason) ∷ [] }

  abbrev pub mark_seen : Bytes → Generated F M H → Generated F M H
  mark_seen name g = record g { seen = name ∷ g.seen }

  -- The name under which a proposal is considered.
  abbrev pub name_for : Bytes → Generated F M H → Bytes
  unfolding sanitize_name default_name
  name_for name g =
      sanitize_name (if name == [] then default_name (length g.candidates + 1) else name)

  abbrev pub checked : Generated F M H → List (Candidate F M H) × Option GenerateError
  checked g =
      if length g.candidates == 0
      then ([], some (GenerateError.none_valid g.skipped))
      else if ltb 0 (length g.skipped)
      then (g.candidates, some (GenerateError.some_skipped g.skipped))
      else (g.candidates, none)

  abbrev pub add_candidate :
      (Bytes → String) → Bytes → M → HarnessSpec F → Generated F M H → Generated F M H
  add_candidate text name metadata s g = record g {
    candidates =
        g.candidates
        ++ record { file = file_of name; metadata = metadata; spec = with_name F text name s } ∷ [];
  }

module _ {M H : Type 0} (F : Floats) (is_duration : String → Bool) (text : Bytes → String)
    (is_empty : H → Bool) (marshal : H → Option Bytes)
    (unmarshal : Bytes → Option (HarnessSpec F)) where
  abbrev pub checked_spec : Bytes → M → Checked (HarnessSpec F) → Generated F M H → Generated F M H
  checked_spec name metadata (Checked.failed e) g = skip name (SkipReason.spec (some e)) g
  checked_spec name metadata (Checked.passed s) g = add_candidate text name metadata s g

  -- `spec.Parse` of the body, and what follows it.
  abbrev pub parse_spec : Bytes → M → Option (HarnessSpec F) → Generated F M H → Generated F M H
  parse_spec name metadata none g = skip name (SkipReason.spec none) g
  parse_spec name metadata (some s) g = checked_spec name metadata (validate F is_duration s) g

  abbrev pub marshal_spec : Bytes → M → Option Bytes → Generated F M H → Generated F M H
  marshal_spec name metadata none g = skip name SkipReason.remarshal g
  marshal_spec name metadata (some body) g = parse_spec name metadata (unmarshal body) g

  abbrev pub consider_new : Bytes → Proposal F M H → Generated F M H → Generated F M H
  consider_new name p g =
      if is_empty p.harness
      then skip name SkipReason.empty_harness g
      else marshal_spec name p.metadata (marshal p.harness) g

  -- The body of the loop, under the name that it finds.
  unfoldable pub consider_as : Bytes → Proposal F M H → Generated F M H → Generated F M H
  consider_as name p g =
      if was_seen name g
      then skip name SkipReason.duplicate_name g
      else consider_new name p (mark_seen name g)

  -- The loop over the proposals.
  unfoldable pub consider_all : List (Proposal F M H) → Generated F M H → Generated F M H
  unfolding consider_as name_for
  consider_all [] g = g
  consider_all (p ∷ ps) g = consider_all ps (consider_as (name_for p.name g) p g)

  abbrev pub from_parsed :
      Option (List (Proposal F M H)) → List (Candidate F M H) × Option GenerateError
  unfolding consider_all
  from_parsed none = ([], some GenerateError.not_parsed)
  from_parsed (some []) = ([], some GenerateError.no_candidates)
  from_parsed (some (p ∷ ps)) = checked (consider_all (p ∷ ps) (nothing_yet F M H))

  abbrev pub from_answer :
      (Bytes → Option (List (Proposal F M H)))
      → Option Bytes
      → List (Candidate F M H) × Option GenerateError
  unfolding from_parsed strip_fence
  from_answer parse none = ([], some GenerateError.no_answer)
  from_answer parse (some out) = from_parsed (parse (strip_fence out))

  -- `GenerateCandidates`: `complete` is the model, asked for a number of candidates, with the lines
  -- about the patterns; `parse` reads its answer as YAML. The base harness is part of `complete`.
  unfoldable pub generate_candidates :
      (ℕ → List Bytes → Option Bytes)
      → (Bytes → Option (List (Proposal F M H)))
      → List Bytes
      → ℕ
      → List (Candidate F M H) × Option GenerateError
  unfolding from_answer sle64
  generate_candidates complete parse lines n = from_answer parse (
      complete (if sle64 n 0 then 3 else n)
        (if length lines == 0 then bytes "- none detected" ∷ [] else lines))
