-- ===== src/Optimize/Generate/Tests.antt =====
-- internal/optimize/llm.go: runs of the loop over the proposals. A harness is the text of its name, and a
-- harness "minimal" is read as a valid specification.
use harnesslab.Optimize.Generate.{
  Proposal, Candidate, GenerateError, file_of, strip_fence, sanitize_name, default_name,
  generate_candidates,
}
use harnesslab.Optimize.Generate.Sound.{IsUsable, files}
use harnesslab.Optimize.Generate.Accepted.{generate_candidates-IsUsable}
use harnesslab.Optimize.Generate.Names.{Distinct}
use harnesslab.Spec.Validate.{validate, and_then}
use harnesslab.Spec.Types.{HarnessSpec}
use harnesslab.Shared.Text.{bytes_beq}
use harnesslab.Spec.Tests.{is_duration, minimal}
use harnesslab.Shared.Float.{whole_floats}
use harnesslab.Shared.{
  ℕ, String, Bool, ◌≡◌, refl, Option, none, some, List, [], ◌∷◌, Bytes, bytes, if◌then◌else◌, ◌==◌,
  bytes_eq, All,
}

abbrev proposal : String → String → Proposal whole_floats (Unit {0}) Bytes
proposal name harness = record { name = bytes name; metadata = tt; harness = bytes harness }

abbrev no_text : Bytes → String
no_text s = ""

abbrev is_empty : Bytes → Bool
is_empty h = h == []

abbrev read : Bytes → Option (HarnessSpec whole_floats)
read body = if body == bytes "minimal" then some minimal else none

abbrev proposals : List (Proposal whole_floats (Unit {0}) Bytes)
proposals = proposal "Fast" "minimal" ∷ proposal "tiny" "minimal" ∷ proposal " tiny-" "minimal" ∷ []

abbrev answer : ℕ → List Bytes → Option Bytes
answer n lines = some (bytes "```yaml\nx\n```")

abbrev parse : Bytes → Option (List (Proposal whole_floats (Unit {0}) Bytes))
parse text = if text == bytes "x" then some proposals else none

unfenced : strip_fence (bytes " ```yaml\na: b\n```\n") ≡ bytes "a: b"
unfolding strip_fence
unfenced = refl

sanitized : sanitize_name (bytes " Plan B! ") ≡ bytes "lan"
unfolding sanitize_name
sanitized = refl

numbered : default_name 7 ≡ bytes "candidate-007"
unfolding default_name
numbered = refl

abbrev accepted : List (Candidate whole_floats (Unit {0}) Bytes) × Option GenerateError
accepted =
    generate_candidates whole_floats is_duration no_text is_empty (λ h. some h) read answer parse []
      0

two_accepted :
    files whole_floats is_duration accepted.0 ≡ file_of (bytes "ast") ∷ file_of (bytes "tiny") ∷ []
unfolding generate_candidates bytes_beq validate and_then whole_floats
two_accepted = refl

generate_candidates-IsUsable_example :
    All (IsUsable whole_floats is_duration (λ _. Unit {0})) accepted.0
    × Distinct (files whole_floats is_duration accepted.0)
generate_candidates-IsUsable_example =
    generate_candidates-IsUsable whole_floats is_duration no_text is_empty (λ h. some h) read answer
      parse [] 0
