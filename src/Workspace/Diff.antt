-- ===== src/Workspace/Diff.antt =====
-- internal/workspace/git/git.go: `Snapshot` and `Diff`.
use harnesslab.Builder.{WorkspaceDiff}
use harnesslab.Shared.Scan.{trim_space, split_at}
use harnesslab.Shared.{
  Option, none, some, List, [], ◌∷◌, Bytes, bytes_eq, string_eq, ◌==◌, if◌then◌else◌,
}
use harnesslab.Workspace.{Instance, Snapshot, Machine, git_out}

module _ (A : Machine) where
  abbrev pub text_of : Option Bytes → Bytes
  text_of none = []
  text_of (some out) = out

  -- `Snapshot`
  unfoldable pub snapshot : Instance → A.State → Option Snapshot × A.State
  unfolding git_out
  snapshot inst s =
      let (head, s') = git_out A inst.root ("rev-parse" ∷ "HEAD" ∷ []) s in
      let (status, s'') = git_out A inst.root ("status" ∷ "--porcelain" ∷ []) s' in
      elim head [
        | none ↦ (none, s')
        | some commit ↦ (some (record { commit = commit; status = text_of status }), s'')
      ]

  -- The lines that are not empty.
  abbrev pub file_lines : List Bytes → List Bytes
  file_lines [] = []
  file_lines (line ∷ rest) =
      let files = file_lines rest in
      let name = trim_space line in if name == [] then files else name ∷ files

  abbrev pub untracked_files : Option Bytes → List Bytes
  untracked_files none = []
  untracked_files (some out) = file_lines (split_at b'\n' out)

  abbrev pub with_untracked :
      Bytes → Bytes → Option Bytes × A.State → Option WorkspaceDiff × A.State
  with_untracked patch stat (out, s) =
      (some (record { patch = patch; stat = stat; untracked = untracked_files out }), s)

  unfoldable pub with_stat :
      Instance → Bytes → Option Bytes × A.State → Option WorkspaceDiff × A.State
  unfolding git_out
  with_stat inst patch (none, s) = (none, s)
  with_stat inst patch (some stat, s) =
      with_untracked patch stat
        (git_out A inst.root ("ls-files" ∷ "--others" ∷ "--exclude-standard" ∷ []) s)

  unfoldable pub with_patch : Instance → Option Bytes × A.State → Option WorkspaceDiff × A.State
  unfolding with_stat
  with_patch inst (none, s) = (none, s)
  with_patch inst (some patch, s) =
      with_stat inst patch (git_out A inst.root ("diff" ∷ "--stat" ∷ []) s)

  -- `Diff`
  unfoldable pub diff : Instance → A.State → Option WorkspaceDiff × A.State
  unfolding with_patch
  diff inst s = with_patch inst (git_out A inst.root ("diff" ∷ []) s)
