-- ===== src/Store.antt =====
-- internal/store/store.go: the records of a run. A time is 0 if it is the zero time of Go, and else one more
-- than its nanoseconds after 1970; durations are milliseconds.
pub mod Interface
pub mod Json
pub mod Sqlite
pub mod Tests
use harnesslab.Shared.Float.{Floats}
use harnesslab.Shared.{ℕ, String, Bool, false, List, [], Bytes}

pub data Status : Type 0 where
  running passed failed error cancelled : Status

pub record CommandResult : Type 0 where
  pub command : String
  pub passed : Bool
  pub exit_code : ℕ
  pub output : Bytes

pub record VerificationResult : Type 0 where
  pub passed : Bool
  pub commands : List CommandResult
  pub workspace_changed : Bool
  pub tests_passed : ℕ
  pub tests_failed : ℕ
  pub duration_ms : ℕ

abbrev pub no_verification : VerificationResult
no_verification = record {
  passed = false;
  commands = [];
  workspace_changed = false;
  tests_passed = 0;
  tests_failed = 0;
  duration_ms = 0;
}

module _ (F : Floats) where
  open F use {Float}

  pub record Metrics : Type 0 where
    pub success : Bool
    pub input_tokens : ℕ
    pub output_tokens : ℕ
    pub tool_calls : ℕ
    pub model_calls : ℕ
    pub cost_usd : Float
    pub duration_ms : ℕ
    pub verification_passed : Bool
    pub workspace_changed : Bool

  abbrev pub no_metrics : Metrics
  no_metrics = record {
    success = false;
    input_tokens = 0;
    output_tokens = 0;
    tool_calls = 0;
    model_calls = 0;
    cost_usd = F.zero;
    duration_ms = 0;
    verification_passed = false;
    workspace_changed = false;
  }

  pub record Run : Type 0 where
    pub id : String
    pub task : String
    pub harness_version : String
    pub harness_name : String
    pub repository : String
    pub commit : String
    pub workspace : String
    pub trace_path : String
    pub started_at : ℕ
    pub finished_at : ℕ
    pub status : Status
    pub metrics : Metrics
    pub spec_yaml : String
    pub workspace_patch : Bytes
    pub verification : VerificationResult
    pub environment : String
