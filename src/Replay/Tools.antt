-- ===== src/Replay/Tools.antt =====
-- internal/runtime/trpc/replay.go: the callbacks around a tool call. `depth` bounds the depth of nested
-- documents (Replay/Canonical). A tool gives a JSON value, or none.
pub mod Offline
use harnesslab.Replay.Canonical.{Json, Canonicalizer, Coder, normalize, hash}
use harnesslab.Replay.Store.{Entry, Journal, Found, kind_tool, lookup, put}
use harnesslab.Shared.{
  ℕ, String, Bool, true, false, Option, none, some, List, [], ◌∷◌, Bytes, if◌then◌else◌,
}

-- `ReplayMode`; `off` is the empty one.
pub data ReplayMode : Type 0 where
  off recording strict fallback : ReplayMode

-- The arguments of a call, and how it ended.
pub record ToolCall : Type 0 where
  pub tool_name : Bytes
  pub arguments : Bytes
  pub erred : Bool
  pub result : Option Json

-- What the callback before a tool decides.
pub data Decision : Type 0 where
  run_tool : Decision
  answer : Json → Decision
  strict_miss : Bytes → Bytes → Decision

module _ (coder : Coder) (c : Canonicalizer) (depth : ℕ) where
  abbrev entry_for : ℕ → Bytes → Bytes → Bytes → Entry
  entry_for now h args norm = record {
    kind = kind_tool;
    input_hash = h;
    input = args;
    output = norm;
    created_at = now;
  }

  -- The normalized text of a result.
  abbrev normalized : Option Bytes → Option Bytes
  unfolding normalize
  normalized none = none
  normalized (some out) = normalize coder c depth out

  -- The entry that a call leaves, if it leaves one.
  abbrev pub entry_from : ℕ → Bytes → Option Bytes → Option Bytes → Option Entry
  entry_from now args none norm = none
  entry_from now args (some h) none = none
  entry_from now args (some h) (some norm) = some (entry_for now h args norm)

  abbrev result_text : Bool → Option Json → Option Bytes
  result_text true r = none
  result_text false none = none
  result_text false (some v) = coder.marshal v

  unfoldable pub recorded_entry : ℕ → ToolCall → Option Entry
  unfolding hash normalized
  recorded_entry now call =
      entry_from now call.arguments (hash coder c depth kind_tool call.tool_name call.arguments)
        (normalized (result_text call.erred call.result))

  abbrev pub put_entry : Option Entry → Journal → Journal
  unfolding put
  put_entry none j = j
  put_entry (some e) j = put e j

  -- The callback of the mode record, after the tool.
  unfoldable pub after_tool : ℕ → ToolCall → Journal → Journal
  unfolding recorded_entry put_entry
  after_tool now call j = put_entry (recorded_entry now call) j

  abbrev decoded : Option Json → Decision
  decoded none = Decision.run_tool
  decoded (some v) = Decision.answer v

  abbrev missed : ReplayMode → Bytes → Bytes → Decision
  missed ReplayMode.strict name h = Decision.strict_miss name h
  missed _ name h = Decision.run_tool

  abbrev pub decide : ReplayMode → Bytes → Bytes → Found → Decision
  decide mode name h Found.unreadable = Decision.run_tool
  decide mode name h (Found.found out) = decoded (coder.unmarshal out)
  decide mode name h Found.missing = missed mode name h

  abbrev pub decide_hash : ReplayMode → Bytes → Option Bytes → Journal → Decision
  unfolding lookup
  decide_hash mode name none j = Decision.run_tool
  decide_hash mode name (some h) j = decide mode name h (lookup kind_tool h j)

  -- The callback of the other modes, before the tool.
  unfoldable pub before_tool : ReplayMode → Bytes → Bytes → Journal → Decision
  unfolding hash decide_hash
  before_tool mode name args j = decide_hash mode name (hash coder c depth kind_tool name args) j

  -- `buildReplayToolCallbacks`: what becomes of a call in the modes; without a mode the tool is run,
  -- and nothing is recorded.
  unfoldable pub callback_before : ReplayMode → Bytes → Bytes → Journal → Decision
  unfolding before_tool
  callback_before ReplayMode.off name args j = Decision.run_tool
  callback_before ReplayMode.recording name args j = Decision.run_tool
  callback_before mode name args j = before_tool mode name args j

  unfoldable pub callback_after : ReplayMode → ℕ → ToolCall → Journal → Journal
  unfolding after_tool
  callback_after ReplayMode.recording now call j = after_tool now call j
  callback_after _ now call j = j
