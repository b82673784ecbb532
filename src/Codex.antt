-- ===== src/Codex.antt =====
-- internal/runtime/codex/runtime.go: the options with which the framework's agent for the codex command is
-- made. The agent itself is third-party.
use harnesslab.Spec.Types.{HarnessSpec}
use harnesslab.Trpc.Instruction.{Node, build_instruction}
use harnesslab.Shared.Float.{Floats}
use harnesslab.Shared.{
  String, Bool, false, not, Option, none, some, List, [], ◌∷◌, ◌++◌, Bytes, bytes, ◌==◌, string_eq,
  ltb, length, if◌then◌else◌,
}

pub data CodexOption : Type 0 where
  with_bin : String → CodexOption
  with_resume_enabled : Bool → CodexOption
  with_global_args : String → String → CodexOption
  with_work_dir : String → CodexOption
  -- What is put in front of the message.
  with_message_prefix : Bytes → CodexOption
  with_extra_args : List String → CodexOption
  with_env : List String → CodexOption

abbrev pub value_or : String → String → String
value_or v d = if v == "" then d else v

abbrev pub option_if : Bool → CodexOption → List CodexOption
option_if b o = if b then o ∷ [] else []

module _ (F : Floats) where
  -- `New`
  unfoldable pub new_codex : HarnessSpec F → Option (HarnessSpec F)
  new_codex s = if not (s.runtime.type == "codex") then none else some s

  -- `Run`, up to the agent.
  unfoldable pub codex_options : HarnessSpec F → String → Option Node → List CodexOption
  unfolding build_instruction
  codex_options s root tree =
      let cfg = s.runtime.codex in
      CodexOption.with_bin (value_or cfg.binary "codex")
      ∷ CodexOption.with_resume_enabled false
      ∷ CodexOption.with_global_args "--sandbox" (value_or cfg.sandbox "read-only")
      ∷ CodexOption.with_global_args "--ask-for-approval" (value_or cfg.ask_for_approval "never")
      ∷ CodexOption.with_work_dir root
      ∷ CodexOption.with_message_prefix (build_instruction F s tree ++ bytes "\n\n")
      ∷ (option_if (not (cfg.model == ""))
            (CodexOption.with_extra_args ("--model" ∷ cfg.model ∷ []))
          ++ (option_if (ltb 0 (length cfg.extra_args)) (CodexOption.with_extra_args cfg.extra_args)
              ++ option_if (ltb 0 (length cfg.env)) (CodexOption.with_env cfg.env)))
