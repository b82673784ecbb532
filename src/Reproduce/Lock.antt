-- ===== src/Reproduce/Lock.antt =====
-- internal/reproduce/lock.go: what is captured of the environment, and the lock of a harness. The toolchain,
-- the output of git and the build information are parameters.
use harnesslab.Reproduce.{Environment, zero_environment}
use harnesslab.Spec.Types.{
  RuntimeSpec, ModelSpec, ToolsSpec, VerificationSpec, BudgetSpec, HarnessSpec,
}
use harnesslab.Shared.Float.{Floats}
use harnesslab.Shared.Scan.{trim_space}
use harnesslab.Shared.{
  String, Option, none, some, List, [], ◌∷◌, Bytes, ◌==◌, string_eq, if◌then◌else◌,
}

-- The version of the main module, and the path and the version of each dependency.
pub record BuildInfo : Type 0 where
  pub main_version : String
  pub deps : List (String × String)

-- The first dependency that is the framework.
abbrev pub framework_version : List (String × String) → String
framework_version [] = ""
framework_version ((path, version) ∷ deps) =
    let rest = framework_version deps in
    if path == "trpc.group/trpc-go/trpc-agent-go" then version else rest

abbrev pub with_git : (Bytes → String) → Option Bytes → Environment → Environment
with_git text none env = env
with_git text (some out) env = record env { git_version = text (trim_space out) }

abbrev pub with_build : Option BuildInfo → Environment → Environment
with_build none env = env
with_build (some info) env = record env {
  harness_lab = info.main_version;
  trpc_agent_go = framework_version info.deps;
}

unfoldable pub capture :
    (Bytes → String) → String → String → String → Option Bytes → Option BuildInfo → Environment
capture text version os arch git info =
    with_build info (
      with_git text git
        (record zero_environment { go_version = version; goos = os; goarch = arch }))

pub record Lock (F : Floats) : Type 0 where
  pub version : String
  pub name : String
  pub runtime : RuntimeSpec
  pub model : ModelSpec F
  pub planning : String
  pub tools : ToolsSpec
  pub verification : VerificationSpec
  pub budget : BudgetSpec F
  pub environment : Environment

-- `GenerateLock` before the text is made; no specification is a nil pointer, whose fields cannot be read.
unfoldable pub generate_lock : (F : Floats) → Environment → Option (HarnessSpec F) → Option (Lock F)
generate_lock F env none = none
generate_lock F env (some s) = some (record {
  version = s.version;
  name = s.name;
  runtime = s.runtime;
  model = s.model;
  planning = s.planning;
  tools = s.tools;
  verification = s.verification;
  budget = s.budget;
  environment = env;
})
