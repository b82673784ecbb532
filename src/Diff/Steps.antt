-- ===== src/Diff/Steps.antt =====
-- internal/diff/diff.go: steps, their keys, and `BuildSteps`.
use harnesslab.Runtime.{RunEvent, EventType, ModelEvent, ToolEvent, ErrorEvent}
use harnesslab.Shared.{
  ℕ, ◌+◌, ◌-◌, ◌/◌, ◌%◌, Option, none, some, List, [], ◌∷◌, ◌++◌, ltb, ◌==◌, if◌then◌else◌, Bytes,
  bytes, bytes_eq, take,
}

pub data StepType : Type 0 where
  model tool error : StepType

-- `Step`, with the cached `key`.
pub record Step : Type 0 where
  pub type : StepType
  pub name : Bytes
  pub args : Bytes
  pub result : Bytes
  pub content : Bytes
  pub tokens_in : ℕ
  pub tokens_out : ℕ
  pub key : Bytes

-- `Step{Type: t}`
abbrev pub new_step : StepType → Step
new_step t = record {
  type = t;
  name = [];
  args = [];
  result = [];
  content = [];
  tokens_in = 0;
  tokens_out = 0;
  key = [];
}

-- encoding/hex: two lower case digits for a byte.
abbrev hex_digit : ℕ → ℕ
hex_digit d = if ltb d 10 then b'0' + d else b'a' + (d - 10)

unfoldable pub hex : Bytes → Bytes
hex [] = []
hex (b ∷ s) = hex_digit (b / 16) ∷ hex_digit (b % 16) ∷ hex s

module _ (sha256 : Bytes → Bytes) where
  unfoldable pub hash_text : Bytes → Bytes
  hash_text s = hex (take 8 (sha256 s))

  abbrev pub fresh_key : StepType → Step → Bytes
  fresh_key tool s = bytes "tool:" ++ (s.name ++ (bytes ":" ++ hash_text s.args))
  fresh_key model s = bytes "model:" ++ hash_text s.content
  fresh_key error s = bytes "error:" ++ hash_text s.result

  -- `keyOf` returns the cached key, or computes it.
  unfoldable pub key_of : Step → Bytes
  unfolding hash_text
  key_of s = if s.key == [] then fresh_key s.type s else s.key

abbrev pub model_step : Option ModelEvent → Step
model_step none = new_step model
model_step (some m) = record (new_step model) {
  name = m.model;
  content = m.content;
  tokens_in = m.tokens_in;
  tokens_out = m.tokens_out;
}

abbrev pub started_step : Option ToolEvent → Step
started_step none = new_step tool
started_step (some t) = record (new_step tool) { name = t.name; args = t.arguments }

-- A `tool_end` with no pending start.
abbrev pub orphan_step : Option ToolEvent → Step
orphan_step none = new_step tool
orphan_step (some t) = record (new_step tool) { name = t.name; result = t.result }

abbrev pub ended_step : Step → Option ToolEvent → Step
ended_step s none = s
ended_step s (some t) = record s { result = t.result }

abbrev pub error_step : Option ErrorEvent → Step
error_step none = new_step error
error_step (some e) = record (new_step error) { result = e.message }

abbrev pub close_tool : Option Step → Option ToolEvent → Step
close_tool none t = orphan_step t
close_tool (some s) t = ended_step s t

-- One round of the loop: the steps that it appends, and the pending tool afterwards.
unfoldable pub on_event : Option Step → EventType → RunEvent → List Step × Option Step
on_event pending EventType.model_end ev = (model_step ev.model ∷ [], pending)
on_event pending EventType.tool_start ev = ([], some (started_step ev.tool))
on_event pending EventType.tool_end ev = (close_tool pending ev.tool ∷ [], none)
on_event pending EventType.error ev = (error_step ev.error ∷ [], pending)
on_event pending _ ev = ([], pending)

unfoldable pub steps_from : Option Step → List RunEvent → List Step
unfolding on_event
steps_from pending [] = []
steps_from pending (ev ∷ evs) =
    let (out, pending') = on_event pending ev.type ev in out ++ steps_from pending' evs

unfoldable pub build_steps : List RunEvent → List Step
unfolding steps_from
build_steps events = steps_from none events
