-- ===== src/Trpc/Instruction.antt =====
-- internal/runtime/trpc/runtime.go: `BuildInstruction`, the system instruction of the agent, and `repoMap`.
-- A text is the list of its characters. The directory tree and filepath.Rel are parameters: a file carries
-- its slashed path below the root and its size, if they can be had.
mod Mapped
mod Tests
use harnesslab.Spec.Types.{HarnessSpec}
use harnesslab.Shared.Float.{Floats}
use harnesslab.Shared.Format.{decimal}
use harnesslab.Shared.Lexical.{bytes_ltb}
use harnesslab.Shared.Scan.{trim_space}
use harnesslab.Shared.Sorting.{sort_slice}
use harnesslab.Shared.{
  ℕ, String, Bool, true, false, ◌&&◌, ◌||◌, not, Option, none, some, List, [], ◌∷◌, ◌++◌, Bytes,
  bytes, bytes_eq, string_eq, nat_eq, ◌==◌, ltb, length, take, if◌then◌else◌,
}

-- `entry`
pub record MapEntry : Type 0 where
  pub path : Bytes
  pub size : ℕ

-- What filepath.WalkDir meets below a directory, in its order.
mutual
  pub data Node : Type 0 where
    unreadable : Node
    file : Option Bytes → Option ℕ → Node
    directory : Bytes → Forest → Node

  pub data Forest : Type 0 where
    end : Forest
    also : Node → Forest → Forest

abbrev pub is_hidden : Bytes → Bool
is_hidden name = name == bytes ".git" || name == bytes ".harness"

-- What the function of the walk appends for a file.
abbrev pub file_entry : Option Bytes → Option ℕ → List MapEntry
file_entry none size = []
file_entry (some path) none = []
file_entry (some path) (some size) = record { path = path; size = size } ∷ []

unfoldable mutual
  pub node_entries : Node → List MapEntry
  node_entries Node.unreadable = []
  node_entries (Node.file path size) = file_entry path size
  node_entries (Node.directory name forest) =
      let below = forest_entries forest in if is_hidden name then [] else below

  pub forest_entries : Forest → List MapEntry
  forest_entries Forest.end = []
  forest_entries (Forest.also n rest) = node_entries n ++ forest_entries rest

abbrev pub max_entries : ℕ
max_entries = 200

abbrev pub path_less : MapEntry → MapEntry → Bool
path_less a b = bytes_ltb a.path b.path

-- The entries that are printed, in the order of their paths.
unfoldable pub map_entries : Node → List MapEntry
unfolding node_entries
map_entries root =
    let entries = node_entries root in
    sort_slice path_less
      (if ltb max_entries (length entries) then take max_entries entries else entries)

unfoldable pub print_entries : List MapEntry → Bytes
unfolding decimal
print_entries [] = []
print_entries (e ∷ es) =
    e.path ++ (bytes " (" ++ (decimal e.size ++ (bytes " B)\n" ++ print_entries es)))

-- `strings.TrimSuffix` of a line feed.
unfoldable pub trim_line : Bytes → Bytes
trim_line [] = []
trim_line (c ∷ s) = let rest = trim_line s in if c == 10 && s == [] then [] else c ∷ rest

-- `repoMap`; `tree` is what stands at the root, if that is given.
unfoldable pub repo_map : Option Node → Bytes
unfolding map_entries print_entries trim_line
repo_map none = []
repo_map (some tree) = trim_line (print_entries (map_entries tree))

-- The lines of a list, each behind the same mark.
abbrev pub marked_lines : Bytes → List Bytes → Bytes
marked_lines mark [] = []
marked_lines mark (line ∷ lines) = mark ++ (line ++ marked_lines mark lines)

abbrev pub trimmed : List String → List Bytes
trimmed [] = []
trimmed (s ∷ rest) = trim_space (bytes s) ∷ trimmed rest

abbrev pub plain : List String → List Bytes
plain [] = []
plain (s ∷ rest) = bytes s ∷ plain rest

abbrev pub when : Bool → Bytes → Bytes
when b text = if b then text else []

module _ (F : Floats) where
  unfoldable pub build_instruction : HarnessSpec F → Option Node → Bytes
  unfolding repo_map
  build_instruction s tree =
      let map_text = repo_map tree in
      bytes "You are a coding agent working inside a repository workspace."
      ++ (when (not (s.agent.instruction == "")) (bytes "\n\n" ++ bytes s.agent.instruction)
          ++ (when (s.planning == "todo") (
                bytes
                  "\n\nPlanning: Before making changes, create a short TODO list of steps and work through them one at a time.")
              ++ (when (s.context == "repo-map" && not (map_text == [])) (
                    bytes "\n\nRepository map (auto-generated; read files for details):\n"
                    ++ map_text)
                  ++ (when (s.skills.enabled && ltb 0 (length s.skills.list)) (
                        bytes "\n\nSkills (follow these working procedures):"
                        ++ marked_lines (bytes "\n- ") (trimmed s.skills.list))
                      ++ (when (ltb 0 (length s.verification.commands)) (
                            bytes
                              "\n\nVerification: You must run the following commands to verify your work and iterate until they pass:"
                            ++ marked_lines (bytes "\n  - ") (plain s.verification.commands))
                          ++ when s.tools.shell (
                              bytes
                                "\n\nUse the exec_command tool to run shell commands such as builds and tests."))))))
