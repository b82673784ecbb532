-- ===== src/Sandbox/Backends.antt =====
-- internal/sandbox/sandbox.go, process.go and container.go: the sandbox that `New` chooses, and what
-- `Run` of each one does. The host is a parameter: its operating system, its environment, and what
-- the programs answer that are started on it, with a deadline or without one.
use harnesslab.Sandbox.{Command, Policy, Answer, Refusal, process_run}
use harnesslab.Sandbox.Redact.{redact_secrets}
use harnesslab.Sandbox.Environ.{scrub_env}
use harnesslab.Shared.Int64.{slt64, sle64}
use harnesslab.Shared.{
  ℕ, ◌-◌, ◌^◌, Bool, ◌||◌, Option, none, some, List, [], ◌∷◌, ◌++◌, Bytes, bytes, bytes_eq, ◌==◌,
  if◌then◌else◌,
}

-- `Spec`
pub record SandboxSpec : Type 0 where
  pub type : Bytes
  pub network : Bytes
  pub image : Bytes
  pub timeout : ℕ
  pub allowed_commands : List Bytes
  pub denied_commands : List Bytes

-- The error of a result: one of the sandbox, or one of the started program, with its exit code if the
-- program ran to its end.
pub data RunError : Type 0 where
  empty_command : RunError
  denied : Bytes → RunError
  not_allowed : RunError
  exit : ℕ → RunError
  other : Bytes → RunError

pub record Result : Type 0 where
  pub exit_code : ℕ
  pub output : Bytes
  pub err : Option RunError

-- -1 as the bit pattern of an `int`.
abbrev pub minus_one : ℕ
minus_one = 2 ^ 64 - 1

pub record Host : Type 0 where
  pub goos : Bytes
  pub environ : List Bytes
  -- `filepath.Clean`
  pub clean : Bytes → Bytes
  -- `runCommandTree`: the directory, the command, the environment unless it is inherited, the deadline.
  pub run_tree : Bytes → Bytes → Option (List Bytes) → Option ℕ → Result
  -- `exec.CommandContext` and `CombinedOutput`: the program, its arguments, the deadline.
  pub combined_output : Bytes → List Bytes → Option ℕ → Bytes × Option RunError
  -- The caller's context has ended when the command returns.
  pub ended : Bool

pub data Sandbox : Type 0 where
  none_sandbox : ℕ → Sandbox
  process_sandbox : SandboxSpec → Sandbox
  docker_sandbox : SandboxSpec → Sandbox
  bwrap_sandbox : SandboxSpec → Sandbox

pub data Creation : Type 0 where
  created : Sandbox → Creation
  not_on_windows : Creation
  unsupported : Bytes → Creation

-- `New`
unfoldable pub new_sandbox : Bytes → SandboxSpec → Creation
new_sandbox goos spec =
    if spec.type == [] || spec.type == bytes "none"
    then Creation.created (Sandbox.none_sandbox spec.timeout)
    else if spec.type == bytes "process"
    then Creation.created (Sandbox.process_sandbox spec)
    else if spec.type == bytes "docker"
    then Creation.created (Sandbox.docker_sandbox spec)
    else if spec.type == bytes "bwrap"
    then (if goos == bytes "windows"
        then Creation.not_on_windows
        else Creation.created (Sandbox.bwrap_sandbox spec))
    else Creation.unsupported spec.type

unfoldable pub exit_code_of : Option RunError → ℕ
exit_code_of none = 0
exit_code_of (some (RunError.exit code)) = code
exit_code_of (some _) = minus_one

abbrev pub failure : RunError → Result
failure e = record { exit_code = minus_one; output = []; err = some e }

abbrev deadline : ℕ → Option ℕ
deadline timeout = if sle64 timeout 0 then none else some timeout

unfoldable pub exec_shell_timeout_env : Host → Bytes → Bytes → Option (List Bytes) → ℕ → Result
exec_shell_timeout_env h dir cmd env timeout = h.run_tree dir cmd env (deadline timeout)

abbrev pub policy_of : SandboxSpec → Policy
policy_of s = record {
  timeout = s.timeout;
  allowed_commands = s.allowed_commands;
  denied_commands = s.denied_commands;
}

unfoldable pub result_of : Answer Result → Result
result_of (Answer.refused Refusal.empty_command) = failure RunError.empty_command
result_of (Answer.refused (Refusal.denied d)) = failure (RunError.denied d)
result_of (Answer.refused Refusal.not_allowed) = failure RunError.not_allowed
result_of (Answer.ran r) = r

-- The end of the process sandbox's `Run`.
abbrev pub finish : Bool → Result → Result
finish ended r = record r {
  output = redact_secrets r.output;
  exit_code = if ended then minus_one else r.exit_code;
}

unfoldable pub run_process : Host → SandboxSpec → Command → Result
unfolding result_of
run_process h s cmd = result_of (
    process_run
      (λ dir command timeout.
        exec_shell_timeout_env h dir command (some (scrub_env h.environ)) timeout)
      (finish h.ended) (policy_of s) cmd)

abbrev workspace : Bytes
workspace = bytes "/workspace"

unfoldable pub docker_network : Bytes → List Bytes
docker_network network =
    if network == bytes "none"
    then bytes "--network" ∷ bytes "none" ∷ []
    else if network == bytes "allowlist"
    then bytes "--network" ∷ bytes "host" ∷ []
    else bytes "--network" ∷ bytes "none" ∷ []

unfoldable pub docker_args : Host → SandboxSpec → Command → List Bytes
unfolding docker_network
docker_args h s cmd =
    let image = if s.image == [] then bytes "alpine:latest" else s.image in
    (bytes "run" ∷ bytes "--rm" ∷ [])
    ++ (docker_network s.network
        ++ ((bytes "-v"
              ∷ (h.clean cmd.dir ++ (bytes ":" ++ workspace))
              ∷ bytes "-w"
              ∷ workspace
              ∷ image
              ∷ [])
            ++ (bytes "sh" ∷ bytes "-c" ∷ cmd.command ∷ [])))

abbrev pub ended_program : Bytes × Option RunError → Result
ended_program (out, err) = record {
  exit_code = exit_code_of err;
  output = redact_secrets out;
  err = err;
}

unfoldable pub run_docker : Host → SandboxSpec → Command → Result
run_docker h s cmd =
    if cmd.command == []
    then failure RunError.empty_command
    else ended_program (h.combined_output (bytes "docker") (docker_args h s cmd) none)

abbrev pub bwrap_fixed : List Bytes
bwrap_fixed =
    bytes "--die-with-parent"
    ∷ bytes "--new-session"
    ∷ bytes "--unshare-pid"
    ∷ bytes "--unshare-uts"
    ∷ bytes "--unshare-ipc"
    ∷ bytes "--proc"
    ∷ bytes "/proc"
    ∷ bytes "--dev"
    ∷ bytes "/dev"
    ∷ bytes "--tmpfs"
    ∷ bytes "/tmp"
    ∷ bytes "--ro-bind"
    ∷ bytes "/usr"
    ∷ bytes "/usr"
    ∷ bytes "--ro-bind"
    ∷ bytes "/bin"
    ∷ bytes "/bin"
    ∷ bytes "--ro-bind"
    ∷ bytes "/lib"
    ∷ bytes "/lib"
    ∷ bytes "--ro-bind"
    ∷ bytes "/lib64"
    ∷ bytes "/lib64"
    ∷ bytes "--ro-bind"
    ∷ bytes "/etc"
    ∷ bytes "/etc"
    ∷ []

unfoldable pub bwrap_args : Host → SandboxSpec → Command → List Bytes
bwrap_args h s cmd =
    bwrap_fixed
    ++ ((if s.network == bytes "none" || s.network == bytes "restricted"
          then bytes "--unshare-net" ∷ []
          else [])
        ++ (bytes "--bind"
            ∷ h.clean cmd.dir
            ∷ workspace
            ∷ bytes "--chdir"
            ∷ workspace
            ∷ bytes "sh"
            ∷ bytes "-c"
            ∷ cmd.command
            ∷ []))

unfoldable pub run_bwrap : Host → SandboxSpec → Command → Result
run_bwrap h s cmd =
    if cmd.command == []
    then failure RunError.empty_command
    else ended_program (
        h.combined_output (bytes "bwrap") (bwrap_args h s cmd)
          (if slt64 0 s.timeout then some s.timeout else none))

-- `Run` of the interface `Sandbox`.
unfoldable pub run_sandbox : Host → Sandbox → Command → Result
unfolding run_process run_docker run_bwrap
run_sandbox h (Sandbox.none_sandbox timeout) cmd =
    exec_shell_timeout_env h cmd.dir cmd.command none timeout
run_sandbox h (Sandbox.process_sandbox s) cmd = run_process h s cmd
run_sandbox h (Sandbox.docker_sandbox s) cmd = run_docker h s cmd
run_sandbox h (Sandbox.bwrap_sandbox s) cmd = run_bwrap h s cmd
