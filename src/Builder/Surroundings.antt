-- ===== src/Builder/Surroundings.antt =====
-- internal/harness/builder/builder.go: the options of `Build`, its errors, and what the rest of the program
-- answers while a harness is assembled.
use harnesslab.Store.{Run}
use harnesslab.Spec.Types.{HarnessSpec}
use harnesslab.Workspace.{Instance, WorkspaceSpec}
use harnesslab.Shared.Float.{Floats}
use harnesslab.Shared.{ℕ, String, Bool, Option, none, some, List, Bytes, string_eq, if◌then◌else◌}

-- `Options`
pub record BuildOptions : Type 0 where
  pub harness_dir : String
  pub repo : String
  pub commit : String
  pub user_id : String
  pub replay_from : String
  pub replay_fallback : Bool
  pub replay_model : Bool
  pub replay_patch : Bytes
  pub store_driver : String

pub data StoreKind : Type 0 where
  json_dir sqlite_file : String → StoreKind

pub data BuildError : Type 0 where
  unsupported_store unsupported_runtime : String → BuildError
  store_failed workspace_failed timeout_failed not_on_windows : BuildError
  unsupported_sandbox : Bytes → BuildError
  file_tools_failed host_tools_failed trace_failed run_not_created journal_failed : BuildError

pub data Built (A : Type 0) : Type 0 where
  ok : A → Built A
  err : BuildError → Built A

infixl 5 ◌>>=◌
abbrev pub ◌>>=◌ : {A B : Type 0} → Built A → (A → Built B) → Built B
Built.ok a >>= f = f a
Built.err e >>= f = Built.err e

abbrev pub when_done : {A : Type 0} → Bool → BuildError → A → Built A
when_done done e a = if done then Built.ok a else Built.err e

abbrev pub result_or : {A : Type 0} → BuildError → Option A → Built A
result_or e none = Built.err e
result_or e (some a) = Built.ok a

abbrev pub root_of : Option Instance → String
root_of none = "."
root_of (some w) = w.root

abbrev pub root_or_empty : Option Instance → String
root_or_empty none = ""
root_or_empty (some w) = w.root

module _ (F : Floats) where
  -- `fresh_id` is the run's id, `join` is filepath.Join; a tool set is the list of its tools.
  pub record Surroundings : Type 0 where
    pub fresh_id : String
    pub join : List String → String
    pub open_store : StoreKind → Bool
    pub create_workspace : String → WorkspaceSpec → Option Instance
    pub goos : Bytes
    pub parse_duration : String → Option ℕ
    pub file_tools : String → Option (List String)
    pub host_tools : String → Option (List String)
    pub open_trace : String → Bool
    pub started : ℕ
    pub marshal_spec : HarnessSpec F → Option String
    pub environment : Option String
    pub create_run : Run F → Bool
    pub open_journal : String → Bool
    pub temp_dir : Bytes
