-- ===== src/Builder/Tally.antt =====
-- internal/harness/builder/builder.go: the metrics that `Run` adds up from the events, next to those of
-- the normalizer that emits them.
use harnesslab.Runtime.{RunEvent, EventType, ModelEvent}
use harnesslab.Store.{Metrics}
use harnesslab.Builder.{Tallied, tally, tally_type}
use harnesslab.Trpc.Normalizer.Invariant.{is_tool_start, total_in, total_out}
use harnesslab.Shared.Float.{Floats}
use harnesslab.Shared.Int64.{add64}
use harnesslab.Shared.{
  ◌+◌, ◌%◌, ◌^◌, ◌≡◌, Bool, true, false, ◌||◌, Option, none, some, List, [], ◌∷◌, any, count, arith,
}

abbrev is_end : EventType → Bool
is_end EventType.model_end = true
is_end _ = false

abbrev is_failure : EventType → Bool
is_failure EventType.error = true
is_failure _ = false

abbrev pub is_model_end : RunEvent → Bool
is_model_end e = is_end e.type

abbrev pub is_error : RunEvent → Bool
is_error e = is_failure e.type

module _ (F : Floats) where
  -- What the events `evs` add to the metrics `m`, and to whether there was an error.
  pub record Adds (evs : List RunEvent) (m : Metrics F) (b : Bool) (s : Tallied F) : Type 0 where
    pub models : s.0.model_calls ≡ m.model_calls + count is_model_end evs
    pub tools : s.0.tool_calls ≡ m.tool_calls + count is_tool_start evs
    pub tokens_in : s.0.input_tokens % 2 ^ 64 ≡ (m.input_tokens + total_in evs) % 2 ^ 64
    pub tokens_out : s.0.output_tokens % 2 ^ 64 ≡ (m.output_tokens + total_out evs) % 2 ^ 64
    pub errored : s.1 ≡ (b || any is_error evs)

  abbrev typed : RunEvent → EventType → Option ModelEvent → RunEvent
  typed ev t u = record ev { type = t; model = u }

  tally_type-Adds :
      (t : EventType) (u : Option ModelEvent) (ev : RunEvent) (m : Metrics F) (b : Bool)
      → Adds (typed ev t u ∷ []) m b (tally_type F t (typed ev t u) (m, b))
  unfolding add64
  tally_type-Adds EventType.model_end (some u) ev m b = record {
    models = omega arith;
    tools = omega arith;
    tokens_in = omega arith;
    tokens_out = omega arith;
    errored = ground arith;
  }
  tally_type-Adds EventType.model_end none ev m b = record {
    models = omega arith;
    tools = omega arith;
    tokens_in = omega arith;
    tokens_out = omega arith;
    errored = ground arith;
  }
  tally_type-Adds _ u ev m b = record {
    models = omega arith;
    tools = omega arith;
    tokens_in = omega arith;
    tokens_out = omega arith;
    errored = ground arith;
  }

  pub tally-Adds :
      (evs : List RunEvent) (m : Metrics F) (b : Bool) → Adds evs m b (tally F evs (m, b))
  unfolding tally
  tally-Adds [] m b = record {
    models = omega arith;
    tools = omega arith;
    tokens_in = omega arith;
    tokens_out = omega arith;
    errored = ground arith;
  }
  tally-Adds (ev ∷ evs) m b =
      let one = tally_type-Adds ev.type ev.model ev m b in
      let s = tally_type F ev.type ev (m, b) in
      let rest = tally-Adds evs s.0 s.1 in
      record {
        models = omega (arith, one.models, rest.models);
        tools = omega (arith, one.tools, rest.tools);
        tokens_in = omega (arith, one.tokens_in, rest.tokens_in);
        tokens_out = omega (arith, one.tokens_out, rest.tokens_out);
        errored = ground (arith, one.errored, rest.errored);
      }
