-- ===== src/Sandbox/Secrecy.antt =====
-- internal/sandbox: what the backends keep from the command and from the reader of its output.
use harnesslab.Sandbox.{Command, Policy, Answer, match_denied, match_allowed, process_run}
use harnesslab.Sandbox.Redact.{markers}
use harnesslab.Sandbox.Redact.Marker.{Masked}
use harnesslab.Sandbox.Redact.Masking.{redact_secrets-Masked}
use harnesslab.Sandbox.Environ.{
  to_upper, secret_words, NoEquals, secret_name-hidden, scrub_env-without,
}
use harnesslab.Sandbox.Backends.{
  SandboxSpec, Host, Result, Sandbox, Creation, RunError, new_sandbox, exec_shell_timeout_env,
  result_of, policy_of, finish, failure, docker_args, bwrap_args, ended_program, run_process,
  run_docker, run_bwrap, run_sandbox,
}
use harnesslab.Shared.Int64.{slt64}
use mathlib.Core.Path.{subst}
use harnesslab.Shared.{
  ℕ, ◌≡◌, refl, ap, not, ◌&&◌, ltb, length, Option, none, some, Bool, false, ◌||◌, List, [], ◌∷◌,
  ◌++◌, Bytes, bytes, bytes_eq, ◌==◌, if◌then◌else◌, if-cases, In,
}

-- In the output of a result every marker is masked.
abbrev pub Redacted : Result → Type 0
Redacted r = (m : Bytes) → In m markers → Masked m r.output

failure-Redacted : (e : RunError) → Redacted (failure e)
failure-Redacted e m i = tt

process_run-Redacted :
    (execute : Bytes → Bytes → ℕ → Result) (ended : Bool) (p : Policy) (cmd : Command)
    → Redacted (result_of (process_run execute (finish ended) p cmd))
unfolding process_run result_of
process_run-Redacted execute ended p cmd =
    let P : Answer Result → Type 0 = λ a. Redacted (result_of a) in
    let hit = match_denied cmd.command p.denied_commands in
    let res =
      execute cmd.dir cmd.command
        (if slt64 p.timeout cmd.timeout then cmd.timeout else p.timeout) in
    if-cases P (cmd.command == []) (λ _. failure-Redacted RunError.empty_command)
      (λ _.
        if-cases P (not (hit == [])) (λ _. failure-Redacted (RunError.denied hit))
          (λ _.
            if-cases P
              (ltb 0 (length p.allowed_commands)
                && not (match_allowed cmd.command p.allowed_commands))
              (λ _. failure-Redacted RunError.not_allowed)
              (λ _ m i. redact_secrets-Masked m res.output i)))

run_process-Redacted : (h : Host) (s : SandboxSpec) (cmd : Command) → Redacted (run_process h s cmd)
unfolding run_process
run_process-Redacted h s cmd = process_run-Redacted _ h.ended (policy_of s) cmd

ended_program-Redacted : (p : Bytes × Option RunError) → Redacted (ended_program p)
ended_program-Redacted (out, err) m i = redact_secrets-Masked m out i

run_docker-Redacted : (h : Host) (s : SandboxSpec) (cmd : Command) → Redacted (run_docker h s cmd)
unfolding run_docker
run_docker-Redacted h s cmd =
    if-cases Redacted (cmd.command == []) (λ _. failure-Redacted RunError.empty_command)
      (λ _. ended_program-Redacted (h.combined_output (bytes "docker") (docker_args h s cmd) none))

run_bwrap-Redacted : (h : Host) (s : SandboxSpec) (cmd : Command) → Redacted (run_bwrap h s cmd)
unfolding run_bwrap
run_bwrap-Redacted h s cmd =
    if-cases Redacted (cmd.command == []) (λ _. failure-Redacted RunError.empty_command)
      (λ _. ended_program-Redacted (
        h.combined_output (bytes "bwrap") (bwrap_args h s cmd)
          (if slt64 0 s.timeout then some s.timeout else none)))

abbrev sandbox_or : Sandbox → Creation → Sandbox
sandbox_or d (Creation.created sb) = sb
sandbox_or d Creation.not_on_windows = d
sandbox_or d (Creation.unsupported type) = d

-- What `New` creates, if anything, masks what it runs.
abbrev Isolating : Host → Command → Creation → Type 0
Isolating h cmd c = (sb : Sandbox) → c ≡ Creation.created sb → Redacted (run_sandbox h sb cmd)

created-Isolating :
    (h : Host) (cmd : Command) (sb : Sandbox)
    → Redacted (run_sandbox h sb cmd)
    → Isolating h cmd (Creation.created sb)
created-Isolating h cmd sb r o e =
    subst (λ x. Redacted (run_sandbox h x cmd)) (ap (sandbox_or sb) e) r

new_sandbox-Isolating :
    (h : Host) (spec : SandboxSpec) (cmd : Command)
    → (spec.type == [] || spec.type == bytes "none") ≡ false
    → Isolating h cmd (new_sandbox h.goos spec)
unfolding new_sandbox run_sandbox
new_sandbox-Isolating h spec cmd n =
    let P = Isolating h cmd in
    if-cases P (spec.type == [] || spec.type == bytes "none") (λ t sb e. cc)
      (λ _.
        if-cases P (spec.type == bytes "process")
          (λ _.
            created-Isolating h cmd (Sandbox.process_sandbox spec)
              (run_process-Redacted h spec cmd))
          (λ _.
            if-cases P (spec.type == bytes "docker")
              (λ _.
                created-Isolating h cmd (Sandbox.docker_sandbox spec)
                  (run_docker-Redacted h spec cmd))
              (λ _.
                if-cases P (spec.type == bytes "bwrap")
                  (λ _.
                    if-cases P (h.goos == bytes "windows") (λ _ sb e. cc)
                      (λ _.
                        created-Isolating h cmd (Sandbox.bwrap_sandbox spec)
                          (run_bwrap-Redacted h spec cmd)))
                  (λ _ sb e. cc))))

-- Every sandbox but the one of the type none masks the secrets in the output of every command: if
-- `New` creates a sandbox for a type that is neither empty nor none, then wherever one of the four
-- markers stands in the output of a command, three stars follow it, and no character of a token follows these.
pub run_sandbox-Redacted :
    (h : Host) (spec : SandboxSpec) (sb : Sandbox) (cmd : Command) (m : Bytes)
    → new_sandbox h.goos spec ≡ Creation.created sb
    → (spec.type == [] || spec.type == bytes "none") ≡ false
    → In m markers
    → Masked m (run_sandbox h sb cmd).output
run_sandbox-Redacted h spec sb cmd m e n i = new_sandbox-Isolating h spec cmd n sb e m i

-- A variable whose name contains API_KEY, TOKEN, SECRET or PASSWORD, in any case of the letters, does not reach
-- a command: the process sandbox answers every command as it would if the variable were absent from its
-- environment, whatever the value is.
pub run_process-ignores_secrets :
    (h : Host) (s : SandboxSpec) (cmd : Command) (xs ys : List Bytes) (p u q value w : Bytes)
    → In w secret_words
    → to_upper u ≡ w
    → NoEquals (p ++ (u ++ q))
    → run_process (record h { environ = xs ++ ((p ++ (u ++ q)) ++ (b'=' ∷ value)) ∷ ys }) s cmd
      ≡ run_process (record h { environ = xs ++ ys }) s cmd
unfolding run_process exec_shell_timeout_env
run_process-ignores_secrets h s cmd xs ys p u q value w i e n =
    let kv = (p ++ (u ++ q)) ++ (b'=' ∷ value) in
    rw (scrub_env-without xs ys kv (secret_name-hidden p u q value w i e n)) refl
