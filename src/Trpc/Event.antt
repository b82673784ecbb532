-- ===== src/Trpc/Event.antt =====
-- The fields of the framework's events (event.Event with its embedded model.Response) that
-- internal/runtime/trpc reads.
use harnesslab.Shared.{ℕ, Bool, Option, List, Bytes}

-- `Object`: the types that `normalize` tells apart, and all others.
pub data ObjectType : Type 0 where
  chat_completion_chunk chat_completion tool_response error plumbing : ObjectType

pub record ToolCall : Type 0 where
  pub id : Bytes
  pub name : Bytes
  pub arguments : Bytes

pub record Message : Type 0 where
  pub content : Bytes
  pub tool_calls : List ToolCall
  pub tool_id : Bytes

pub record Choice : Type 0 where
  pub delta : Message
  pub message : Message

pub record Usage : Type 0 where
  pub prompt_tokens : ℕ
  pub completion_tokens : ℕ

pub record ResponseError : Type 0 where
  pub message : Bytes
  pub type : Bytes

pub record Event : Type 0 where
  pub error : Option ResponseError
  pub object : ObjectType
  pub model : Bytes
  pub choices : List Choice
  pub usage : Option Usage
  pub is_done : Bool
