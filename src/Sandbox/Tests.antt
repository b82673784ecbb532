-- ===== src/Sandbox/Tests.antt =====
-- internal/sandbox/process.go: commands under a policy. The shell answers with the command here.
use harnesslab.Sandbox.{
  Command, Policy, Answer, Refusal, process_run, has_run, forbidden, listed, process_run-policy,
}
use harnesslab.Sandbox.Redact.{redact_secrets}
use harnesslab.Sandbox.Redact.Marker.{Masked}
use harnesslab.Sandbox.Environ.{scrub_env}
use harnesslab.Sandbox.Backends.{
  SandboxSpec, Host, Result, RunError, Sandbox, Creation, new_sandbox, run_process, run_sandbox,
  bwrap_args, docker_args,
}
use harnesslab.Sandbox.ExecTool.{exec_command, max_tool_output, notice, exec_command-bounded}
use harnesslab.Sandbox.Secrecy.{run_sandbox-Redacted, run_process-ignores_secrets}
use harnesslab.Shared.Text.{bytes_beq}
use harnesslab.Shared.{
  In, take, drop, length, ◌+◌, ◌≤◌, none, some, ◌||◌, false, string_eq, ℕ, ◌≡◌, refl, not, ◌&&◌, [],
  ◌∷◌, Bytes, bytes, bytes_eq, nat_eq, ◌==◌,
}

abbrev shell : Bytes → Bytes → ℕ → Bytes
shell dir command timeout = command

abbrev unchanged : Bytes → Bytes
unchanged s = s

abbrev policy : Policy
policy = record {
  timeout = 30;
  allowed_commands = bytes "go " ∷ bytes "ls" ∷ [];
  denied_commands = bytes "" ∷ bytes "rm -rf" ∷ [];
}

abbrev build_command : Command
build_command = record { dir = []; command = bytes "go build"; timeout = 0 }

denied_first :
    process_run shell unchanged policy (record build_command { command = bytes "ls; rm -rf /" })
    ≡ Answer.refused (Refusal.denied (bytes "rm -rf"))
unfolding process_run bytes_beq
denied_first = refl

process_run-policy_example :
    has_run shell unchanged (process_run shell unchanged policy build_command) ≡ (
      not (build_command.command == [])
      && not (forbidden policy build_command.command)
      && listed policy build_command.command)
process_run-policy_example = process_run-policy shell unchanged policy build_command

redacted : redact_secrets (bytes "key sk-abc_1 and ghp_x!") ≡ bytes "key sk-*** and ghp_***!"
unfolding redact_secrets bytes_beq
redacted = refl

-- `redactSecrets` is no projection: its own stars are put in front of the old ones.
redacted_twice : redact_secrets (redact_secrets (bytes "sk-abc")) ≡ bytes "sk-******"
unfolding redact_secrets bytes_beq
redacted_twice = refl

-- A host whose programs print their arguments.
abbrev echo : Host
echo = record {
  goos = bytes "linux";
  environ = bytes "HOME=/" ∷ bytes "openai_api_key=sk-abc" ∷ [];
  clean = unchanged;
  run_tree = λ dir cmd env limit. record { exit_code = 0; output = cmd; err = none };
  combined_output = λ program args limit. (bytes "sk-abc", none);
  ended = false;
}

scrubbed : scrub_env echo.environ ≡ bytes "HOME=/" ∷ []
unfolding scrub_env bytes_beq
scrubbed = refl

abbrev docker : SandboxSpec
docker = record {
  type = bytes "docker";
  network = [];
  image = [];
  timeout = 0;
  allowed_commands = [];
  denied_commands = [];
}

docker_created : new_sandbox echo.goos docker ≡ Creation.created (Sandbox.docker_sandbox docker)
unfolding new_sandbox bytes_beq
docker_created = refl

docker_isolates : (docker.type == [] || docker.type == bytes "none") ≡ false
unfolding bytes_beq
docker_isolates = refl

-- Without a network mode bubblewrap leaves the network in place.
bwrap_arguments :
    drop 26 (bwrap_args echo docker build_command)
    ≡ bytes "--bind"
      ∷ []
      ∷ bytes "/workspace"
      ∷ bytes "--chdir"
      ∷ bytes "/workspace"
      ∷ bytes "sh"
      ∷ bytes "-c"
      ∷ bytes "go build"
      ∷ []
unfolding bwrap_args bytes_beq
bwrap_arguments = refl

docker_arguments :
    take 6 (docker_args echo docker build_command)
    ≡ bytes "run"
      ∷ bytes "--rm"
      ∷ bytes "--network"
      ∷ bytes "none"
      ∷ bytes "-v"
      ∷ bytes ":/workspace"
      ∷ []
unfolding docker_args bytes_beq
docker_arguments = refl

run_sandbox-Redacted_example :
    Masked (bytes "sk-") (run_sandbox echo (Sandbox.docker_sandbox docker) build_command).output
run_sandbox-Redacted_example =
    run_sandbox-Redacted echo docker (Sandbox.docker_sandbox docker) build_command (bytes "sk-")
      docker_created docker_isolates (In.here refl)

run_process-ignores_secrets_example :
    run_process
      (record echo { environ = bytes "HOME=/" ∷ bytes "db_Password_2=abc" ∷ [] })
      docker
      build_command
    ≡ run_process (record echo { environ = bytes "HOME=/" ∷ [] }) docker build_command
run_process-ignores_secrets_example =
    run_process-ignores_secrets echo docker build_command (bytes "HOME=/" ∷ []) [] (bytes "db_")
      (bytes "Password") (bytes "_2") (bytes "abc") (bytes "PASSWORD")
      (In.there (In.there (In.there (In.here refl)))) refl
      (
        refl,
        (
          refl,
          (
            refl,
            (refl, (refl, (refl, (refl, (refl, (refl, (refl, (refl, (refl, (refl, tt)))))))))),
          ),
        ),
      )

abbrev answer : Command → Result
answer cmd = record { exit_code = 1; output = []; err = some (RunError.exit 1) }

abbrev shown_text : RunError → Bytes
shown_text e = bytes "exit status 1"

exec_command-bounded_example :
    length (exec_command answer shown_text [] (bytes "ls")).output ≤ max_tool_output + length notice
exec_command-bounded_example = exec_command-bounded answer shown_text [] (bytes "ls")
