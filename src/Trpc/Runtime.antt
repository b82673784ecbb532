-- ===== src/Trpc/Runtime.antt =====
-- internal/runtime/trpc/runtime.go: `New`, and how `Run` sets up the agent. The framework is third-party: a
-- model is a variant and a name, and an agent is the options that it is made with.
use harnesslab.Spec.Types.{ModelSpec, HarnessSpec}
use harnesslab.Sandbox.Backends.{Sandbox}
use harnesslab.Replay.Canonical.{Canonicalizer}
use harnesslab.Replay.Tools.{ReplayMode}
use harnesslab.Trpc.Instruction.{Node, build_instruction}
use harnesslab.Shared.Float.{Floats}
use harnesslab.Shared.{
  String, Bool, true, false, not, ◌&&◌, Option, none, some, List, Bytes, ◌==◌, string_eq,
  if◌then◌else◌,
}

-- A tool that the agent may call: one of the file tools, the shell in the sandbox, or the host's shell.
pub data Tool : Type 0 where
  file_tool : String → Tool
  sandbox_shell : Sandbox → String → Tool
  host_shell : String → Tool

pub data LiveModel : Type 0 where
  openai deepseek : String → LiveModel

-- `store` is the path of the journal.
pub record ReplayConfig : Type 0 where
  pub mode : ReplayMode
  pub store : Option String
  pub canonicalizer : Option Canonicalizer
  pub replay_model : Bool

abbrev pub is_off : ReplayMode → Bool
is_off ReplayMode.off = true
is_off _ = false

abbrev has_store : Option String → Bool
has_store none = false
has_store (some path) = true

-- `cfg != nil && cfg.Store != nil && cfg.Mode != ""`
abbrev pub is_replaying : Option ReplayConfig → Bool
is_replaying none = false
is_replaying (some cfg) = has_store cfg.store && not (is_off cfg.mode)

abbrev or_here : Bytes → Bytes → Option Canonicalizer → Canonicalizer
or_here root temp none = record { workspace_root = root; temp_dir = temp }
or_here root temp (some c) = c

abbrev pub canonicalizer_for : Bytes → Bytes → Option ReplayConfig → Option Canonicalizer
canonicalizer_for root temp none = none
canonicalizer_for root temp (some cfg) =
    if is_replaying (some cfg) then some (or_here root temp cfg.canonicalizer) else none

-- The canonicalizer of the model that records or replays, if the model is wrapped in one.
abbrev pub wrapper_for : Option ReplayConfig → Option Canonicalizer → Option Canonicalizer
wrapper_for none canon = none
wrapper_for (some cfg) canon = if is_replaying (some cfg) && cfg.replay_model then canon else none

abbrev pub callbacks_for : Option ReplayConfig → Option ReplayMode
callbacks_for none = none
callbacks_for (some cfg) = if is_replaying (some cfg) then some cfg.mode else none

module _ (F : Floats) where
  open F use {Float}

  pub record TrpcRuntime : Type 0 where
    pub spec : HarnessSpec F
    pub tools : List Tool

  -- `New`
  unfoldable pub new_trpc : HarnessSpec F → List Tool → Option TrpcRuntime
  new_trpc s tools =
      if not (s.runtime.type == "trpc") then none else some (record { spec = s; tools = tools })

  unfoldable pub new_model : ModelSpec F → Option LiveModel
  new_model m =
      if m.provider == "openai"
      then some (LiveModel.openai m.name)
      else if m.provider == "deepseek"
      then some (LiveModel.deepseek m.name)
      else none

  pub record GenerationConfig : Type 0 where
    pub stream : Bool
    pub temperature : Option Float

  unfoldable pub gen_config : HarnessSpec F → GenerationConfig
  gen_config s = record { stream = true; temperature = s.model.temperature }

  pub record Agent : Type 0 where
    pub name : String
    pub model : LiveModel
    pub wrapper : Option Canonicalizer
    pub instruction : Bytes
    pub generation : GenerationConfig
    pub tools : List Tool
    pub callbacks : Option ReplayMode

  unfoldable pub agent_on :
      TrpcRuntime
      → Option ReplayConfig
      → Bytes
      → Bytes
      → Option Node
      → Option LiveModel
      → Option Agent
  unfolding build_instruction gen_config
  agent_on r cfg root temp tree none = none
  agent_on r cfg root temp tree (some m) = some (record {
    name = r.spec.agent.name;
    model = m;
    wrapper = wrapper_for cfg (canonicalizer_for root temp cfg);
    instruction = build_instruction F r.spec tree;
    generation = gen_config r.spec;
    tools = r.tools;
    callbacks = callbacks_for cfg;
  })

  -- `Run`, up to RunFrameworkAgent: the replay configuration, the root of the workspace, the directory for
  -- temporary files, and the tree at the root.
  unfoldable pub make_agent :
      TrpcRuntime → Option ReplayConfig → Bytes → Bytes → Option Node → Option Agent
  unfolding agent_on new_model
  make_agent r cfg root temp tree = agent_on r cfg root temp tree (new_model r.spec.model)
