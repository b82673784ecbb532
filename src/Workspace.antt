-- ===== src/Workspace.antt =====
-- internal/workspace/workspace.go and internal/workspace/git/git.go: workspaces that are worktrees of a
-- mirror. The git command, the file system, the clock and the context are parameters.
pub mod Diff
pub mod Waiting
pub mod Mirror
pub mod Captured
mod Tests
use harnesslab.Builder.{WorkspaceDiff}
use harnesslab.Shared.Scan.{trim_space, split_at}
use harnesslab.Shared.{
  ℕ, zero, suc, ◌+◌, ◌*◌, String, Bool, true, false, Option, none, some, List, [], ◌∷◌, ◌++◌, Bytes,
  bytes, bytes_eq, string_eq, ◌==◌, ltb, length, take, if◌then◌else◌,
}
use Prim.Native.String.{◌++◌ as ◌<>◌}

pub record Instance : Type 0 where
  pub id : String
  pub root : String
  pub repo : String
  pub commit : String

-- `workspace.Spec`
pub record WorkspaceSpec : Type 0 where
  pub repo : String
  pub commit : String

pub record Snapshot : Type 0 where
  pub commit : Bytes
  pub status : Bytes

pub data MirrorError : Type 0 where
  no_directory wait_cancelled timed_out missing_mirror clone_cancelled clone_failed : MirrorError

pub data CreateError : Type 0 where
  no_scratch : CreateError
  no_mirror : MirrorError → CreateError
  no_worktree : CreateError

pub data Created : Type 0 where
  not_created : CreateError → Created
  created : Instance → Created

-- What os.Stat says.
pub data FileStat : Type 0 where
  present absent unreadable : FileStat

abbrev pub is_present : FileStat → Bool
is_present FileStat.present = true
is_present _ = false

abbrev pub is_absent : FileStat → Bool
is_absent FileStat.absent = true
is_absent _ = false

-- `trim`
unfoldable pub cut_output : Bytes → Bytes
cut_output b = if ltb 512 (length b) then take 512 b ++ bytes "..." else b

-- What the program is run on. `run_git` takes the directory and the arguments, and gives the output, if git
-- succeeds; `pause` waits, and says whether the context was not done before the end of the wait.
pub record Machine : Type 1 where
  pub State : Type 0
  pub run_git : String → List String → State → Option Bytes × State
  pub stat : String → State → FileStat
  pub mkdir_all : String → State → Bool × State
  pub create_new : String → State → Bool × State
  pub remove : String → State → State
  pub remove_all : String → State → Bool × State
  pub now : State → ℕ
  pub sleep : ℕ → State → State
  pub pause : ℕ → State → Bool × State
  pub is_done : State → Bool

abbrev pub max_attempts : ℕ
max_attempts = 3

module _ (A : Machine) where
  abbrev succeeded : Option Bytes → Bool
  succeeded none = false
  succeeded (some out) = true

  -- `git`: whether there was no error.
  abbrev pub git : List String → A.State → Bool × A.State
  git args s = let (out, s') = A.run_git "" args s in (succeeded out, s')

  abbrev pub trimmed_output : Option Bytes → Option Bytes
  unfolding cut_output
  trimmed_output none = none
  trimmed_output (some out) = some (cut_output out)

  -- `gitOut`
  abbrev pub git_out : String → List String → A.State → Option Bytes × A.State
  unfolding trimmed_output
  git_out dir args s = let (out, s') = A.run_git dir args s in (trimmed_output out, s')

  -- `mirrorValid`
  unfoldable pub mirror_valid : String → A.State → Bool × A.State
  mirror_valid mirror s =
      if is_present (A.stat mirror s)
      then git ("--git-dir" ∷ mirror ∷ "rev-parse" ∷ "--is-bare-repository" ∷ []) s
      else (false, s)

  -- The wait for another worker, on fuel; the deadline is a time in milliseconds.
  unfoldable pub wait_lock : ℕ → String → ℕ → A.State → Option (Option MirrorError × A.State)
  wait_lock zero lock deadline s = none
  wait_lock (suc fuel) lock deadline s =
      let rest = wait_lock fuel lock deadline (A.sleep 500 s) in
      if is_absent (A.stat lock s)
      then some (none, s)
      else if A.is_done s
      then some (some MirrorError.wait_cancelled, s)
      else if ltb deadline (A.now s)
      then some (some MirrorError.timed_out, s)
      else rest

  abbrev pub after_wait :
      String → Option (Option MirrorError × A.State) → Option (Option MirrorError × A.State)
  unfolding mirror_valid
  after_wait mirror none = none
  after_wait mirror (some (some e, s)) = some (some e, s)
  after_wait mirror (some (none, s)) =
      let (valid, s') = mirror_valid mirror s in
      some (if valid then (none, s') else (some MirrorError.missing_mirror, s'))

  -- The loop that clones: `left` attempts are left, and `attempt` counts them from 1.
  unfoldable pub clone_mirror : String → String → ℕ → ℕ → A.State → Option MirrorError × A.State
  clone_mirror repo mirror zero attempt s = (some MirrorError.clone_failed, s)
  clone_mirror repo mirror (suc left) attempt s =
      let (_, cleared) = A.remove_all mirror s in
      let (cloned, s') = git ("clone" ∷ "--mirror" ∷ repo ∷ mirror ∷ []) cleared in
      let (waited, s'') = A.pause (attempt * 3000) s' in
      let again = clone_mirror repo mirror left (attempt + 1) s'' in
      let failed = clone_mirror repo mirror left (attempt + 1) s' in
      if cloned
      then (none, s')
      else if ltb attempt max_attempts
      then if waited then again else (some MirrorError.clone_cancelled, s'')
      else failed

  -- The holder of the lock removes it in the end.
  unfoldable pub clone_locked : String → String → String → A.State → Option MirrorError × A.State
  unfolding clone_mirror
  clone_locked repo mirror lock s =
      let (e, s') = clone_mirror repo mirror max_attempts 1 s in (e, A.remove lock s')

  module _ (rounds : ℕ) (root_dir : String) (join : List String → String) where
    abbrev pub lock_or_wait :
        String → String → String → Bool × A.State → Option (Option MirrorError × A.State)
    unfolding clone_locked wait_lock after_wait
    lock_or_wait repo mirror lock (true, s) = some (clone_locked repo mirror lock s)
    lock_or_wait repo mirror lock (false, s) =
        after_wait mirror (wait_lock rounds lock (A.now s + 120000) s)

    abbrev pub with_directory :
        String → String → Bool × A.State → Option (Option MirrorError × A.State)
    unfolding lock_or_wait
    with_directory repo mirror (false, s) = some (some MirrorError.no_directory, s)
    with_directory repo mirror (true, s) =
        let lock = mirror <> ".lock" in lock_or_wait repo mirror lock (A.create_new lock s)

    abbrev pub unless_valid :
        String → String → Bool × A.State → Option (Option MirrorError × A.State)
    unfolding with_directory
    unless_valid repo mirror (true, s) = some (none, s)
    unless_valid repo mirror (false, s) = with_directory repo mirror (A.mkdir_all root_dir s)

    -- `ensureMirror`; nothing is returned if the fuel of the wait is used up.
    unfoldable pub ensure_mirror : String → String → A.State → Option (Option MirrorError × A.State)
    unfolding unless_valid mirror_valid
    ensure_mirror mirror repo s = unless_valid repo mirror (mirror_valid mirror s)

    abbrev pub scratch : String → WorkspaceSpec → String → Bool × A.State → Created × A.State
    scratch id w dir (false, s) = (Created.not_created CreateError.no_scratch, s)
    scratch id w dir (true, s) =
        (Created.created (record { id = id; root = dir; repo = w.repo; commit = w.commit }), s)

    abbrev pub worktree : String → WorkspaceSpec → String → Bool × A.State → Created × A.State
    worktree id w dir (false, s) = (Created.not_created CreateError.no_worktree, s)
    worktree id w dir (true, s) =
        (Created.created (record { id = id; root = dir; repo = w.repo; commit = w.commit }), s)

    abbrev pub add_worktree :
        String
        → WorkspaceSpec
        → String
        → Option (Option MirrorError × A.State)
        → Option (Created × A.State)
    add_worktree id w mirror none = none
    add_worktree id w mirror (some (some e, s)) =
        some (Created.not_created (CreateError.no_mirror e), s)
    add_worktree id w mirror (some (none, s)) =
        let dir = join (root_dir ∷ "worktrees" ∷ id ∷ []) in
        let commit = if w.commit == "" then "HEAD" else w.commit in
        some (
          worktree id w dir
            (git ("--git-dir" ∷ mirror ∷ "worktree" ∷ "add" ∷ "--detach" ∷ dir ∷ commit ∷ []) s))

    -- `Create`
    unfoldable pub create_workspace : String → WorkspaceSpec → A.State → Option (Created × A.State)
    unfolding ensure_mirror
    create_workspace id w s =
        let dir = join (root_dir ∷ id ∷ []) in
        let mirror = join (root_dir ∷ "mirror.git" ∷ []) in
        if w.repo == ""
        then some (scratch id w dir (A.mkdir_all dir s))
        else add_worktree id w mirror (ensure_mirror mirror w.repo s)

    -- `Destroy`: whether there was no error.
    unfoldable pub destroy : Instance → A.State → Bool × A.State
    destroy inst s =
        let mirror = join (root_dir ∷ "mirror.git" ∷ []) in
        let (_, removed) =
          git ("--git-dir" ∷ mirror ∷ "worktree" ∷ "remove" ∷ "--force" ∷ inst.root ∷ []) s in
        if inst.root == ""
        then (true, s)
        else A.remove_all inst.root (if inst.repo == "" then s else removed)
