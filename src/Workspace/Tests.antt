-- ===== src/Workspace/Tests.antt =====
-- internal/workspace/git/git.go: workspaces on a machine with a clock, on which git never fails once it has
-- cloned.
use harnesslab.Builder.{WorkspaceDiff}
use harnesslab.Workspace.Diff.{diff}
use harnesslab.Workspace.{Machine, FileStat, Instance, Created, cut_output, create_workspace}
use harnesslab.Workspace.Waiting.{create_workspace-Returns}
use harnesslab.Workspace.Captured.{diff-cut}
use harnesslab.Shared.Text.{bytes_beq}
use harnesslab.Shared.{
  ℕ, zero, suc, ◌+◌, ◌≤◌, ◌<◌, String, Bool, true, false, ◌≡◌, ◌≢◌, refl, Option, none, some, List,
  [], ◌∷◌, Bytes, length, ◌==◌, string_eq, if◌then◌else◌, arith,
}

pub record MirrorDisk : Type 0 where
  pub time : ℕ
  pub cloned : Bool

abbrev first_arg : List String → String
first_arg [] = ""
first_arg (a ∷ args) = a

abbrev git_answer : Bool → Bytes → Option Bytes
git_answer true out = some out
git_answer false out = none

abbrev long : ℕ → Bytes
long zero = []
long (suc n) = b'+' ∷ long n

-- The mirror is there once it was cloned; the lock of another worker is never released.
abbrev machine : Machine
machine = record {
  State = MirrorDisk;
  run_git = λ dir args d.
      if first_arg args == "clone"
      then (some [], record d { cloned = true })
      else (git_answer d.cloned (long 600), d);
  stat = λ path d. if d.cloned then FileStat.present else FileStat.unreadable;
  mkdir_all = λ path d. (true, d);
  create_new = λ path d. (path == "m.lock", d);
  remove = λ path d. d;
  remove_all = λ path d. (true, d);
  now = λ d. d.time;
  sleep = λ n d. record d { time = d.time + n };
  pause = λ n d. (true, record d { time = d.time + n });
  is_done = λ d. false;
}

abbrev empty_disk : MirrorDisk
empty_disk = record { time = 0; cloned = false }

abbrev filled : MirrorDisk
filled = record { time = 0; cloned = true }

abbrev joined : List String → String
joined [] = ""
joined (a ∷ rest) = a

-- There is no mirror.
abbrev IsEmpty : MirrorDisk → Type 0
IsEmpty d = d.cloned ≡ false

create_workspace-Returns_example :
    (result : Created × MirrorDisk) × (create_workspace machine 242 "w" joined "run-1"
        (record { repo = "repo"; commit = "" })
        empty_disk
      ≡ some result)
create_workspace-Returns_example =
    create_workspace-Returns machine (λ n s. omega arith) 241 (omega arith) "w" joined "run-1"
      (record { repo = "repo"; commit = "" }) empty_disk

abbrev worktree_instance : Instance
worktree_instance = record { id = "run-1"; root = "w"; repo = "repo"; commit = "" }

abbrev captured : WorkspaceDiff
unfolding cut_output
captured = record {
  patch = cut_output (long 600);
  stat = cut_output (long 600);
  untracked = cut_output (long 600) ∷ [];
}

diff-cut_example :
    (length captured.patch ≤ 515)
    × (length (long 600) ≤ 512 → captured.patch ≡ long 600)
    × (515 < length (long 600) → captured.patch ≢ long 600)
unfolding captured diff bytes_beq
diff-cut_example =
    diff-cut machine worktree_instance filled filled filled (long 600) captured refl refl
