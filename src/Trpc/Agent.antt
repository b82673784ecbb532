-- ===== src/Trpc/Agent.antt =====
-- internal/runtime/trpc/runtime.go: `RunFrameworkAgent`, which every runtime shares. The framework's
-- runner is a parameter: it fails to start, or gives a list of events. `now` is the clock of the
-- normalizer, `started` and `ended` the times of the first and the last event.
use harnesslab.Runtime.{RunEvent, EventType}
use harnesslab.Trpc.Event.{Event}
use harnesslab.Trpc.Normalizer.{new_normalizer, normalize_all, event_id}
use harnesslab.Trpc.Normalizer.Invariant.{Numbered, Numbered-snoc}
use harnesslab.Trpc.Normalizer.Counters.{normalize_all-Agrees}
use harnesslab.Shared.{
  ℕ, ◌+◌, ◌-◌, ◌≡◌, refl, ap, sym, get_elem?, Option, none, some, List, [], ◌∷◌, ◌++◌, Bytes, arith,
}

abbrev pub run_event : Bytes → EventType → ℕ → ℕ → RunEvent
run_event run t step time = record {
  id = event_id run step;
  run_id = run;
  parent_id = [];
  type = t;
  timestamp = time;
  duration_ms = 0;
  step = step;
  model = none;
  tool = none;
  error = none;
}

abbrev pub last_event : Bytes → ℕ → ℕ → ℕ → RunEvent
last_event run step started ended = record (run_event run EventType.run_end step ended) {
  duration_ms = ended - started;
}

module _ (now : ℕ → ℕ) (started ended : ℕ) where
  unfoldable pub run_framework_agent : Bytes → Option (List Event) → List RunEvent
  run_framework_agent run none =
      run_event run EventType.run_start 1 started
      ∷ run_event run EventType.error 2 ended
      ∷ run_event run EventType.run_end 3 ended
      ∷ []
  run_framework_agent run (some evs) =
      let (norm, events) = normalize_all now evs (new_normalizer run, []) in
      run_event run EventType.run_start 1 started
      ∷ (events ++ last_event run (norm.step + 1) started ended ∷ [])

abbrev pub tail_of : List RunEvent → List RunEvent
tail_of [] = []
tail_of (e ∷ es) = es

head_of_Numbered :
    (run : Bytes) (es : List RunEvent) (last : RunEvent)
    → Numbered run 0 (es ++ last ∷ [])
    → (e : RunEvent) × (get_elem? (es ++ last ∷ []) 0 ≡ some e) × (e.id ≡ event_id run 1)
head_of_Numbered run [] last (p, _, _) = (last, refl, p)
head_of_Numbered run (e ∷ es) last (p, _, _) = (e, refl, p)

module _ (now : ℕ → ℕ) (started ended : ℕ) where
  -- The events of a run that has started, after its `run_start`, are numbered 1, 2, … without a
  -- gap, the `run_end` included.
  pub run_framework_agent-Numbered :
      (run : Bytes) (evs : List Event)
      → Numbered run 0 (tail_of (run_framework_agent now started ended run (some evs)))
  unfolding run_framework_agent
  run_framework_agent-Numbered run evs =
      let a = normalize_all-Agrees now run evs in
      let (norm, events) = normalize_all now evs (new_normalizer run, []) in
      Numbered-snoc run 0 events (last_event run (norm.step + 1) started ended) a.numbered
        (ap (event_id run) (omega (arith, a.step))) (omega (arith, a.step))

  -- In every run that has started, `run_start` and the event after it have the same id.
  pub run_framework_agent-same_id :
      (run : Bytes) (evs : List Event)
      → (let stream = run_framework_agent now started ended run (some evs) in
          (first : RunEvent) × (second : RunEvent) × (get_elem? stream 0 ≡ some first)
          × (get_elem? stream 1 ≡ some second)
          × (first.type ≡ EventType.run_start)
          × (first.id ≡ second.id))
  unfolding run_framework_agent
  run_framework_agent-same_id run evs =
      let (norm, events) = normalize_all now evs (new_normalizer run, []) in
      let (e, here, same) =
        head_of_Numbered run events (last_event run (norm.step + 1) started ended)
          (run_framework_agent-Numbered run evs) in
      (run_event run EventType.run_start 1 started, e, refl, here, refl, sym same)
