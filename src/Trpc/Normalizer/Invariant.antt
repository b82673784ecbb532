-- ===== src/Trpc/Normalizer/Invariant.antt =====
-- internal/runtime/trpc/normalize.go: how the counters of the normalizer relate to the events that
-- it has emitted.
use mathlib.Core.Path.{ap₂}
use harnesslab.Runtime.{RunEvent, EventType, ModelEvent}
use harnesslab.Trpc.Normalizer.{Normalizer, event_id}
use harnesslab.Shared.{
  ℕ, ◌+◌, ◌%◌, ◌^◌, ◌≡◌, refl, ◌∙◌, ap, Bool, true, false, Option, none, some, List, [], ◌∷◌, ◌++◌,
  if◌then◌else◌, Bytes, length, length-append, count, count-append, arith,
}
use harnesslab.Shared.Int64.{add64}

abbrev is_start_type : EventType → Bool
is_start_type EventType.model_start = true
is_start_type _ = false

abbrev is_tool_type : EventType → Bool
is_tool_type EventType.tool_start = true
is_tool_type _ = false

abbrev pub is_model_start : RunEvent → Bool
is_model_start e = is_start_type e.type

abbrev pub is_tool_start : RunEvent → Bool
is_tool_start e = is_tool_type e.type

abbrev model_in : Option ModelEvent → ℕ
model_in none = 0
model_in (some m) = m.tokens_in

abbrev model_out : Option ModelEvent → ℕ
model_out none = 0
model_out (some m) = m.tokens_out

abbrev in_by_type : EventType → RunEvent → ℕ
in_by_type EventType.model_end e = model_in e.model
in_by_type _ e = 0

abbrev out_by_type : EventType → RunEvent → ℕ
out_by_type EventType.model_end e = model_out e.model
out_by_type _ e = 0

-- The tokens that a `model_end` event reports.
abbrev pub reported_in : RunEvent → ℕ
reported_in e = in_by_type e.type e

abbrev pub reported_out : RunEvent → ℕ
reported_out e = out_by_type e.type e

-- Whether a model call is open after the event; none if the event does not fit.
abbrev bracket_type : EventType → Bool → Option Bool
bracket_type EventType.model_start false = some true
bracket_type EventType.model_start true = none
bracket_type EventType.model_end true = some false
bracket_type EventType.model_end false = none
bracket_type _ o = some o

abbrev pub bracket : Bool → RunEvent → Option Bool
bracket o e = bracket_type e.type o

abbrev pub next : Option Bool → RunEvent → Option Bool
next none e = none
next (some o) e = bracket o e

-- A `model_start` only while no model call is open, a `model_end` only while one is.
abbrev pub brackets : Option Bool → List RunEvent → Option Bool
brackets o [] = o
brackets o (e ∷ es) = brackets (next o e) es

brackets-snoc :
    (o : Option Bool) (es : List RunEvent) (e : RunEvent)
    → brackets o (es ++ e ∷ []) ≡ next (brackets o es) e
brackets-snoc o [] e = refl
brackets-snoc o (d ∷ es) e = brackets-snoc (next o d) es e

-- The events of the run are numbered in order from `k + 1` on, in their ids and their steps.
abbrev pub Numbered : Bytes → ℕ → List RunEvent → Type 0
Numbered run k [] = Unit
Numbered run k (e ∷ es) = (e.id ≡ event_id run (k + 1)) × (e.step ≡ k + 1) × Numbered run (k + 1) es

pub Numbered-snoc :
    (run : Bytes) (k : ℕ) (es : List RunEvent) (e : RunEvent)
    → Numbered run k es
    → e.id ≡ event_id run (k + length es + 1)
    → e.step ≡ k + length es + 1
    → Numbered run k (es ++ e ∷ [])
Numbered-snoc run k [] e h p q = (p ∙ ap (event_id run) (omega arith), omega arith, tt)
Numbered-snoc run k (d ∷ es) e (r, s, h) p q =
    (r, s, Numbered-snoc run (k + 1) es e h (p ∙ ap (event_id run) (omega arith)) (omega arith))

abbrev pub total_in : List RunEvent → ℕ
total_in [] = 0
total_in (e ∷ es) = reported_in e + total_in es

abbrev pub total_out : List RunEvent → ℕ
total_out [] = 0
total_out (e ∷ es) = reported_out e + total_out es

pub total_in-snoc :
    (es : List RunEvent) (e : RunEvent) → total_in (es ++ e ∷ []) ≡ total_in es + reported_in e
total_in-snoc [] e = omega arith
total_in-snoc (d ∷ es) e = omega (arith, total_in-snoc es e)

pub total_out-snoc :
    (es : List RunEvent) (e : RunEvent) → total_out (es ++ e ∷ []) ≡ total_out es + reported_out e
total_out-snoc [] e = omega arith
total_out-snoc (d ∷ es) e = omega (arith, total_out-snoc es e)

-- The part of the normalizer that its events tell.
pub record Counters : Type 0 where
  pub run_id : Bytes
  pub seq : ℕ
  pub step : ℕ
  pub in_model : Bool
  pub model_calls : ℕ
  pub tool_calls : ℕ
  pub input_tokens : ℕ
  pub output_tokens : ℕ

abbrev pub counters : Normalizer → Counters
counters n = record {
  run_id = n.run_id;
  seq = n.seq;
  step = n.step;
  in_model = n.in_model;
  model_calls = n.model_calls;
  tool_calls = n.tool_calls;
  input_tokens = n.input_tokens;
  output_tokens = n.output_tokens;
}

-- What the events emitted so far, from the start of a run, say of the normalizer.
pub record Agrees (run : Bytes) (n : Counters) (out : List RunEvent) : Type 0 where
  pub named : n.run_id ≡ run
  pub seq : n.seq ≡ length out
  pub step : n.step ≡ length out
  pub numbered : Numbered run 0 out
  pub models : n.model_calls ≡ count is_model_start out
  pub tools : n.tool_calls ≡ count is_tool_start out
  pub tokens_in : n.input_tokens ≡ total_in out % 2 ^ 64
  pub tokens_out : n.output_tokens ≡ total_out out % 2 ^ 64
  pub bracketed : brackets (some false) out ≡ some n.in_model

-- The event `e` takes the normalizer from `n` to `n'`.
pub record Emits (n : Counters) (e : RunEvent) (n' : Counters) : Type 0 where
  pub run : n'.run_id ≡ n.run_id
  pub seq : n'.seq ≡ n.seq + 1
  pub step : n'.step ≡ n.step + 1
  pub id : e.id ≡ event_id n.run_id (n.seq + 1)
  pub stamped : e.step ≡ n.step + 1
  pub models : n'.model_calls ≡ n.model_calls + (if is_model_start e then 1 else 0)
  pub tools : n'.tool_calls ≡ n.tool_calls + (if is_tool_start e then 1 else 0)
  pub tokens_in : n'.input_tokens ≡ add64 n.input_tokens (reported_in e)
  pub tokens_out : n'.output_tokens ≡ add64 n.output_tokens (reported_out e)
  pub bracketed : bracket n.in_model e ≡ some n'.in_model

pub Emits-Agrees :
    {run : Bytes} {n n' : Counters} {e : RunEvent} (out : List RunEvent)
    → Emits n e n'
    → Agrees run n out
    → Agrees run n' (out ++ e ∷ [])
unfolding add64
Emits-Agrees {run} {n} {n'} {e} out m a = record {
  named = m.run ∙ a.named;
  seq = omega (arith, length-append out (e ∷ []), a.seq, m.seq);
  step = omega (arith, length-append out (e ∷ []), a.step, m.step);
  numbered =
      Numbered-snoc run 0 out e a.numbered (m.id ∙ ap₂ event_id a.named (omega (arith, a.seq)))
        (omega (arith, m.stamped, a.step));
  models = omega (arith, count-append is_model_start out (e ∷ []), a.models, m.models);
  tools = omega (arith, count-append is_tool_start out (e ∷ []), a.tools, m.tools);
  tokens_in = omega (arith, total_in-snoc out e, a.tokens_in, m.tokens_in);
  tokens_out = omega (arith, total_out-snoc out e, a.tokens_out, m.tokens_out);
  bracketed = brackets-snoc (some false) out e ∙ rw a.bracketed m.bracketed;
}
