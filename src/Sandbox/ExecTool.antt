-- ===== src/Sandbox/ExecTool.antt =====
-- internal/sandbox/exec_tool.go: the tool `exec_command`, through which the model's commands reach the
-- sandbox. `run` is the sandbox, and `message` the text of an error.
use harnesslab.Sandbox.{Command}
use harnesslab.Sandbox.Backends.{RunError, Result, minus_one}
use harnesslab.Shared.Scan.{trim_space}
use harnesslab.Shared.{
  ℕ, ◌+◌, ◌≤◌, Option, none, some, [], ◌∷◌, ◌++◌, Bytes, bytes, bytes_eq, nat_eq, ◌==◌, leb, length,
  take, length-append, length-take_le, if◌then◌else◌, arith, if-cases,
}

abbrev pub max_tool_output : ℕ
max_tool_output = 4000

abbrev pub notice : Bytes
notice = 10 ∷ bytes "...[output truncated]"

unfoldable pub clip_tool : Bytes → Bytes
clip_tool s = if leb (length s) max_tool_output then s else take max_tool_output s ++ notice

pub record ExecResponse : Type 0 where
  pub exit_code : ℕ
  pub output : Bytes
  pub status : Bytes

module _ (run : Command → Result) (message : RunError → Bytes) where
  abbrev pub error_output : Bytes → Bytes → RunError → Bytes
  error_output raw clipped e = if raw == [] then clip_tool (message e) else clipped

  abbrev pub report : Result → Option RunError → ExecResponse
  report res none = record {
    exit_code = res.exit_code;
    output = clip_tool res.output;
    status = bytes "exited";
  }
  report res (some e) = record {
    exit_code = res.exit_code;
    output = error_output res.output (clip_tool res.output) e;
    status = bytes "error";
  }

  unfoldable pub exec_command : Bytes → Bytes → ExecResponse
  exec_command base_dir command =
      if trim_space command == []
      then record { exit_code = minus_one; output = bytes "empty command"; status = bytes "error" }
      else let res = run (record { dir = base_dir; command = command; timeout = 0 }) in
        report res res.err

cut-le :
    (n : ℕ) (s : Bytes)
    → length (if leb (length s) n then s else take n s ++ notice) ≤ n + length notice
cut-le n s = ground (arith, length-append (take n s) notice, length-take_le n s)

clip_tool-le : (s : Bytes) → length (clip_tool s) ≤ max_tool_output + length notice
unfolding clip_tool
clip_tool-le s = cut-le max_tool_output s

abbrev Short : ExecResponse → Type 0
Short r = length r.output ≤ max_tool_output + length notice

report-Short :
    (run : Command → Result) (message : RunError → Bytes) (res : Result) (err : Option RunError)
    → Short (report run message res err)
report-Short run message res none = clip_tool-le res.output
report-Short run message res (some e) =
    if-cases (λ t. length t ≤ max_tool_output + length notice) (res.output == [])
      (λ _. clip_tool-le (message e)) (λ _. clip_tool-le res.output)

-- Whatever the sandbox answers and whatever the error says, the tool returns at most 4000 bytes and
-- the notice that the output was cut.
pub exec_command-bounded :
    (run : Command → Result) (message : RunError → Bytes) (base_dir command : Bytes)
    → length (exec_command run message base_dir command).output ≤ max_tool_output + length notice
unfolding exec_command
exec_command-bounded run message base_dir command =
    if-cases Short (trim_space command == []) (λ _. omega arith)
      (λ _. report-Short run message (run _) _)
