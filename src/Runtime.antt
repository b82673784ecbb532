-- ===== src/Runtime.antt =====
-- internal/runtime/runtime.go: the normalized events of a run, which every component reads.
-- Token counts and step numbers are 64-bit patterns (Shared.Int64); a time stamp is a number that
-- the clock gives.
use harnesslab.Shared.{ℕ, String, Option, Bytes}

-- `EventType`: the named constants, and any other string that a stored trace may hold.
pub data EventType : Type 0 where
  run_start run_end model_start model_end tool_start tool_end error : EventType
  other : String → EventType

pub record ModelEvent : Type 0 where
  pub model : Bytes
  pub tokens_in : ℕ
  pub tokens_out : ℕ
  pub content : Bytes

pub record ToolEvent : Type 0 where
  pub name : Bytes
  pub arguments : Bytes
  pub result : Bytes
  pub exit_code : Option ℕ

pub record ErrorEvent : Type 0 where
  pub message : Bytes
  pub type : Bytes

pub record RunEvent : Type 0 where
  pub id : Bytes
  pub run_id : Bytes
  pub parent_id : Bytes
  pub type : EventType
  pub timestamp : ℕ
  pub duration_ms : ℕ
  pub step : ℕ
  pub model : Option ModelEvent
  pub tool : Option ToolEvent
  pub error : Option ErrorEvent
