-- ===== src/Diff/Trace.antt =====
-- internal/diff/diff.go: what `BuildSteps` makes of a run's events.
use mathlib.Core.List.{flat_map}
use harnesslab.Runtime.{RunEvent, EventType, ToolEvent}
use harnesslab.Diff.Steps.{Step, new_step, model, tool, error, on_event, steps_from, build_steps}
use harnesslab.Shared.{
  ℕ, ◌≡◌, refl, ap, Bool, true, false, Option, none, some, List, [], ◌∷◌, map, Bytes, length,
  length-append, if◌then◌else◌, count, arith,
}

-- What an agent does, one call after the other.
pub data Act : Type 0 where
  answered : (name content : Bytes) (tokens_in tokens_out : ℕ) → Act
  called : (name args result : Bytes) → Act
  failed : (message : Bytes) → Act

-- An event of the run `id` with nothing but its type.
abbrev pub bare : Bytes → EventType → RunEvent
bare id t = record {
  id = id;
  run_id = id;
  parent_id = [];
  type = t;
  timestamp = 0;
  duration_ms = 0;
  step = 0;
  model = none;
  tool = none;
  error = none;
}

abbrev pub tool_event : Bytes → EventType → ToolEvent → RunEvent
tool_event id t e = record (bare id t) { tool = some e }

abbrev pub opened : Bytes → Bytes → ToolEvent
opened name args = record { name = name; arguments = args; result = []; exit_code = none }

abbrev pub closed : Bytes → Bytes → ToolEvent
closed name result = record { name = name; arguments = []; result = result; exit_code = none }

-- The events by which the runtime reports an act.
abbrev pub report : Bytes → Act → List RunEvent
report id (answered name content i o) =
    record (bare id EventType.model_start) {
      model = some (record { model = name; tokens_in = 0; tokens_out = 0; content = [] });
    }
    ∷ record (bare id EventType.model_end) {
      model = some (record { model = name; tokens_in = i; tokens_out = o; content = content });
    }
    ∷ []
report id (called name args result) =
    tool_event id EventType.tool_start (opened name args)
    ∷ tool_event id EventType.tool_end (closed name result)
    ∷ []
report id (failed message) =
    record (bare id EventType.error) { error = some (record { message = message; type = [] }) } ∷ []

abbrev pub step_of : Act → Step
step_of (answered name content i o) = record (new_step model) {
  name = name;
  content = content;
  tokens_in = i;
  tokens_out = o;
}
step_of (called name args result) = record (new_step tool) {
  name = name;
  args = args;
  result = result;
}
step_of (failed message) = record (new_step error) { result = message }

-- The steps of a trace in which no tool call starts before the last one has ended are the acts that
-- it reports, each with all its details.
pub build_steps-report :
    (id : Bytes) (acts : List Act) → build_steps (flat_map (report id) acts) ≡ map step_of acts
unfolding build_steps flat_map
build_steps-report id [] = refl
build_steps-report id (answered name content i o ∷ acts) =
    ap (λ l. step_of (answered name content i o) ∷ l) (build_steps-report id acts)
build_steps-report id (called name args result ∷ acts) =
    ap (λ l. step_of (called name args result) ∷ l) (build_steps-report id acts)
build_steps-report id (failed message ∷ acts) =
    ap (λ l. step_of (failed message) ∷ l) (build_steps-report id acts)

abbrev ends : EventType → Bool
ends EventType.model_end = true
ends EventType.tool_end = true
ends EventType.error = true
ends _ = false

-- The events that end a step.
abbrev pub ends_step : RunEvent → Bool
ends_step ev = ends ev.type

length-on_event :
    (pending : Option Step) (t : EventType) (ev : RunEvent)
    → length (on_event pending t ev).0 ≡ (if ends t then 1 else 0)
unfolding on_event
length-on_event pending EventType.model_end ev = refl
length-on_event pending _ ev = refl

length-steps_from :
    (pending : Option Step) (evs : List RunEvent)
    → length (steps_from pending evs) ≡ count ends_step evs
unfolding steps_from
length-steps_from pending [] = refl
length-steps_from pending (ev ∷ evs) =
    let (out, pending') = on_event pending ev.type ev in
    omega (
      arith,
      length-append out (steps_from pending' evs),
      length-on_event pending ev.type ev,
      length-steps_from pending' evs,
    )

-- A trace has one step for each event that ends a model call or a tool call or reports an error,
-- however its tool calls overlap.
pub length-build_steps : (evs : List RunEvent) → length (build_steps evs) ≡ count ends_step evs
unfolding build_steps
length-build_steps evs = length-steps_from none evs

-- Two tool calls that overlap: the second call gets the first result, the first call's arguments
-- are in no step, and the second result stands in a step with no arguments.
pub build_steps-overlap :
    (id name name' args args' result result' : Bytes)
    → build_steps (
        tool_event id EventType.tool_start (opened name args)
        ∷ tool_event id EventType.tool_start (opened name' args')
        ∷ tool_event id EventType.tool_end (closed name result)
        ∷ tool_event id EventType.tool_end (closed name' result')
        ∷ [])
      ≡ step_of (called name' args' result) ∷ step_of (called name' [] result') ∷ []
unfolding build_steps
build_steps-overlap id name name' args args' result result' = refl
