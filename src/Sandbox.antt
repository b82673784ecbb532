-- ===== src/Sandbox.antt =====
-- internal/sandbox/process.go: the policy of the process sandbox. `execute` is the shell; it gets the
-- directory, the command and the timeout. `redact` masks secrets in the output.
mod Tests
pub mod Redact
pub mod Environ
pub mod Backends
pub mod ExecTool
pub mod Secrecy
pub mod Harness
use harnesslab.Shared.Int64.{slt64}
use harnesslab.Shared.Text.{bytes_beq}
use harnesslab.Shared.Scan.{has_prefix, contains}
use harnesslab.Shared.{
  ℕ, ltb, ◌≡◌, refl, ap, ◌∙◌, Bool, true, false, not, ◌&&◌, ◌||◌, List, [], ◌∷◌, Bytes, bytes,
  bytes_eq, nat_eq, ◌==◌, length, any, if◌then◌else◌, bytes_beq_iff, Bool-cases, inl, inr, arith,
}

pub record Command : Type 0 where
  pub dir : Bytes
  pub command : Bytes
  pub timeout : ℕ

-- Why a command was not run.
pub data Refusal : Type 0 where
  empty_command : Refusal
  denied : Bytes → Refusal
  not_allowed : Refusal

pub data Answer (R : Type 0) : Type 0 where
  refused : Refusal → Answer R
  ran : R → Answer R

-- `Spec`, as far as the process sandbox reads it.
pub record Policy : Type 0 where
  pub timeout : ℕ
  pub allowed_commands : List Bytes
  pub denied_commands : List Bytes

-- The first entry of the deny list that the command contains, or the empty text.
unfoldable pub match_denied : Bytes → List Bytes → Bytes
match_denied cmd [] = []
match_denied cmd (d ∷ ds) =
    let rest = match_denied cmd ds in if not (d == []) && contains cmd d then d else rest

unfoldable pub match_allowed : Bytes → List Bytes → Bool
match_allowed cmd [] = false
match_allowed cmd (a ∷ rest) =
    let later = match_allowed cmd rest in if not (a == []) && has_prefix cmd a then true else later

module _ {R : Type 0} (execute : Bytes → Bytes → ℕ → R) (redact : R → R) where
  unfoldable pub process_run : Policy → Command → Answer R
  unfolding match_denied match_allowed
  process_run p cmd =
      let hit = match_denied cmd.command p.denied_commands in
      if cmd.command == []
      then Answer.refused Refusal.empty_command
      else if not (hit == [])
      then Answer.refused (Refusal.denied hit)
      else if ltb 0 (length p.allowed_commands)
          && not (match_allowed cmd.command p.allowed_commands)
      then Answer.refused Refusal.not_allowed
      else Answer.ran (
          redact (
            execute cmd.dir cmd.command
              (if slt64 p.timeout cmd.timeout then cmd.timeout else p.timeout)))

  abbrev pub has_run : Answer R → Bool
  has_run (Answer.refused r) = false
  has_run (Answer.ran r) = true

-- The command contains an entry of the deny list that is not empty.
abbrev pub forbidden : Policy → Bytes → Bool
forbidden p cmd = any (λ d. not (d == []) && contains cmd d) p.denied_commands

-- There is no allow list, or the command starts with an entry of it that is not empty.
abbrev pub listed : Policy → Bytes → Bool
listed p cmd =
    length p.allowed_commands == 0
    || any (λ a. not (a == []) && has_prefix cmd a) p.allowed_commands

match_denied-any :
    (cmd : Bytes) (ds : List Bytes)
    → not (match_denied cmd ds == []) ≡ any (λ d. not (d == []) && contains cmd d) ds
unfolding match_denied bytes_beq
match_denied-any cmd [] = refl
match_denied-any cmd (d ∷ ds) = ground (arith, match_denied-any cmd ds)

match_allowed-any :
    (cmd : Bytes) (rest : List Bytes)
    → match_allowed cmd rest ≡ any (λ a. not (a == []) && has_prefix cmd a) rest
unfolding match_allowed
match_allowed-any cmd [] = refl
match_allowed-any cmd (a ∷ rest) = ground (arith, match_allowed-any cmd rest)

-- The shell is reached exactly by the commands that are not empty, contain no entry of the deny list,
-- and, if there is an allow list, start with an entry of it (empty entries count for neither list).
pub process_run-policy :
    {R : Type 0} (execute : Bytes → Bytes → ℕ → R) (redact : R → R) (p : Policy) (cmd : Command)
    → has_run execute redact (process_run execute redact p cmd)
      ≡ (not (cmd.command == []) && not (forbidden p cmd.command) && listed p cmd.command)
unfolding process_run
process_run-policy execute redact p cmd = ground (
  arith,
  match_denied-any cmd.command p.denied_commands,
  match_allowed-any cmd.command p.allowed_commands,
)
