-- ===== src/Diff/Tests.antt =====
-- internal/diff/diff.go: runs on small inputs. The digest is the identity here.
use harnesslab.Diff.Steps.{Step, new_step, tool, hex}
use harnesslab.Shared.Text.{bytes_beq}
use harnesslab.Diff.Compare.{compare_steps}
use harnesslab.Diff.Divergence.{Locates, first_divergence-Locates}
use harnesslab.Diff.Trace.{Act, called, answered}
use harnesslab.Shared.{String, ◌≡◌, refl, true, List, [], ◌∷◌, Bytes, bytes}

abbrev digest : Bytes → Bytes
digest s = s

abbrev call : String → String → Step
call name args = record (new_step tool) { name = bytes name; args = bytes args }

abbrev left : List Step
left = call "read" "a" ∷ call "write" "b" ∷ call "test" "c" ∷ []

abbrev right : List Step
right = call "read" "a" ∷ call "write" "d" ∷ []

abbrev acts : List Act
acts = answered (bytes "m") (bytes "hi") 3 4 ∷ called (bytes "read") (bytes "a") (bytes "text") ∷ []

second_step : (compare_steps digest left right).divergence_step_a ≡ 2
unfolding compare_steps bytes_beq hex
second_step = refl

-- A side that has ended is marked with the step after its last one.
past_the_end : (compare_steps digest right []).divergence_step_b ≡ 1
unfolding compare_steps
past_the_end = refl

same_runs : (compare_steps digest left left).identical ≡ true
unfolding compare_steps bytes_beq hex
same_runs = refl

first_divergence-Locates_example :
    Locates digest 0 left right (compare_steps digest left right).first_divergence
first_divergence-Locates_example = first_divergence-Locates digest left right

abbrev some_keys : List Bytes
some_keys = bytes "a" ∷ bytes "b" ∷ []
