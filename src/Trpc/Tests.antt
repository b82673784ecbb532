-- ===== src/Trpc/Tests.antt =====
-- internal/runtime/trpc: runs on small streams of framework events.
use harnesslab.Trpc.Event.{ObjectType, ToolCall, Message, Usage, Event}
use harnesslab.Trpc.Normalizer.{new_normalizer, normalize_all}
use harnesslab.Trpc.Normalizer.Invariant.{Agrees, counters}
use harnesslab.Trpc.Normalizer.Counters.{normalize_all-Agrees}
use harnesslab.Shared.{
  String, ℕ, ◌+◌, ◌≡◌, refl, true, Option, none, some, List, [], ◌∷◌, bytes, length,
}
use harnesslab.Shared.Int64.{add64}
use harnesslab.Shared.Text.{bytes_beq}

abbrev clock : ℕ → ℕ
clock k = 100 + k

abbrev said : String → List ToolCall → Message
said text calls = record { content = bytes text; tool_calls = calls; tool_id = [] }

abbrev read_call : ToolCall
read_call = record { id = bytes "c1"; name = bytes "read"; arguments = bytes "a" }

abbrev used : Usage
used = record { prompt_tokens = 10; completion_tokens = 5 }

abbrev completion : Option Usage → Event
completion usage = record {
  error = none;
  object = ObjectType.chat_completion;
  model = bytes "m";
  choices = record { delta = said "" []; message = said "ok" (read_call ∷ []) } ∷ [];
  usage = usage;
  is_done = true;
}

abbrev response : Event
response = record {
  error = none;
  object = ObjectType.tool_response;
  model = bytes "m";
  choices =
      record { delta = said "" []; message = record (said "text" []) { tool_id = bytes "c1" } }
      ∷ [];
  usage = none;
  is_done = true;
}

abbrev stream : List Event
stream = completion (some used) ∷ response ∷ completion none ∷ []

six_events : length (normalize_all clock stream (new_normalizer (bytes "r"), [])).1 ≡ 6
unfolding normalize_all bytes_beq new_normalizer
six_events = refl

counted_twice : (normalize_all clock stream (new_normalizer (bytes "r"), [])).0.input_tokens ≡ 20
unfolding normalize_all add64 bytes_beq new_normalizer
counted_twice = refl

normalize_all-Agrees_example :
    Agrees
      (bytes "r")
      (counters (normalize_all clock stream (new_normalizer (bytes "r"), [])).0)
      (normalize_all clock stream (new_normalizer (bytes "r"), [])).1
normalize_all-Agrees_example = normalize_all-Agrees clock (bytes "r") stream
