-- ===== src/Benchmark/Pool.antt =====
-- internal/benchmark/scheduler.go: `runBatch`, as a relation between states of its goroutines. Each
-- step is one access to what they share: the unbuffered channel `jobCh`, `stopFlag`, `tokens`, and
-- the report with `failed` under their mutex. `runJob` belongs to the environment: it may give any
-- outcome, of which the pool reads the tokens and whether there was an error. The context may be
-- cancelled at any time.
pub mod Hang
pub mod Accounts
pub mod Retry
use harnesslab.Shared.{
  ℕ, zero, suc, ◌≡◌, Bool, true, false, not, ◌&&◌, ◌||◌, List, [], ◌∷◌, ◌++◌, if◌then◌else◌,
}
use harnesslab.Shared.Int64.{add64, slt64, sle64}

-- The sum of an outcome's input and output tokens, and whether it has an error.
pub record Readings (O : Type 0) : Type 0 where
  pub tokens_of : O → ℕ
  pub errored : O → Bool

module _ (J O : Type 0) where
  -- Where a worker stands.
  pub data Worker : Type 0 where
    waiting : Worker
    received : J → Worker
    running : J → Worker
    -- `runJob` has returned; the tokens are not added yet.
    ran : J → O → Worker
    -- The tokens are added; the budget is not compared yet.
    added : J → O → Worker
    -- Before the report is locked.
    settling : J → O → Worker
    exited : Worker

  -- Where the goroutine stands that feeds the channel, with the jobs that it has left.
  pub data Producer : Type 0 where
    checking : J → List J → Producer
    -- Past the test of the stop flag.
    passed : J → List J → Producer
    sending : J → List J → Producer
    closing : Producer
    -- It has closed the channel.
    finished : Producer
    -- It has returned without closing it.
    returned : Producer

  pub record Pool : Type 0 where
    pub workers : List Worker
    pub producer : Producer
    pub closed : Bool
    pub stop : Bool
    pub cancelled : Bool
    pub tokens : ℕ
    pub reported : List (J × O)
    pub failed : List J
    -- Jobs that a worker has received and, on its way out, not run.
    pub dropped : List J

-- `s.opts.MaxTokens <= 0 || tokens < s.opts.MaxTokens`
abbrev pub in_budget : ℕ → ℕ → Bool
in_budget max_tokens tokens = sle64 max_tokens 0 || slt64 tokens max_tokens

-- `s.opts.MaxTokens > 0 && tokens >= s.opts.MaxTokens`
abbrev pub exceeded : ℕ → ℕ → Bool
exceeded max_tokens tokens = slt64 0 max_tokens && sle64 max_tokens tokens

module _ {J O : Type 0} where
  -- `ctx.Err() != nil || stopFlag.Load()`
  abbrev pub halted : Pool J O → Bool
  halted s = s.cancelled || s.stop

  abbrev pub next_job : List J → Producer J O
  next_job [] = Producer.closing
  next_job (j ∷ js) = Producer.checking j js

module _ {J O : Type 0} (r : Readings O) (max_tokens : ℕ) where
  -- The step of one worker, from `w` to `w'`, with what it changes.
  pub data Move (s : Pool J O) : Worker J O → Worker J O → Pool J O → Type 0 where
    quit :
        {j : J}
        → halted s ≡ true
        → Move s (Worker.received j) Worker.exited (record s { dropped = j ∷ s.dropped })
    begin : {j : J} → halted s ≡ false → Move s (Worker.received j) (Worker.running j) s
    outcome : {j : J} (o : O) → Move s (Worker.running j) (Worker.ran j o) s
    add :
        {j : J} {o : O}
        → Move s
            (Worker.ran j o)
            (Worker.added j o)
            (record s { tokens = add64 s.tokens (r.tokens_of o) })
    budget :
        {j : J} {o : O}
        → Move s
            (Worker.added j o)
            (Worker.settling j o)
            (record s { stop = s.stop || exceeded max_tokens s.tokens })
    settle :
        {j : J} {o : O}
        → Move s (Worker.settling j o) Worker.waiting (record s {
          reported = s.reported ++ (j, o) ∷ [];
          failed = if r.errored o then s.failed ++ j ∷ [] else s.failed;
        })
    drain : s.closed ≡ true → Move s Worker.waiting Worker.exited s

  pub data Step (s : Pool J O) : Pool J O → Type 0 where
    work :
        {w w' : Worker J O} {s' : Pool J O} (before after : List (Worker J O))
        → s.workers ≡ before ++ w ∷ after
        → Move s w w' s'
        → Step s (record s' { workers = before ++ w' ∷ after })
    give_up :
        {j : J} {js : List J}
        → s.producer ≡ Producer.checking j js
        → halted s ≡ true
        → Step s (record s { producer = Producer.returned })
    pass :
        {j : J} {js : List J}
        → s.producer ≡ Producer.checking j js
        → halted s ≡ false
        → Step s (record s { producer = Producer.passed j js })
    ready :
        {j : J} {js : List J}
        → s.producer ≡ Producer.passed j js
        → in_budget max_tokens s.tokens ≡ true
        → Step s (record s { producer = Producer.sending j js })
    nap :
        {j : J} {js : List J}
        → s.producer ≡ Producer.passed j js
        → in_budget max_tokens s.tokens ≡ false
        → Step s (record s { producer = Producer.checking j js })
    hand_over :
        {j : J} {js : List J} (before after : List (Worker J O))
        → s.producer ≡ Producer.sending j js
        → s.workers ≡ before ++ Worker.waiting ∷ after
        → Step s
            (record s { producer = next_job js; workers = before ++ Worker.received j ∷ after })
    close :
        s.producer ≡ Producer.closing
        → Step s (record s { producer = Producer.finished; closed = true })
    cancel : Step s (record s { cancelled = true })

  pub data Reach (s : Pool J O) : Pool J O → Type 0 where
    here : Reach s s
    later : {t u : Pool J O} → Reach s t → Step t u → Reach s u

abbrev pub idle_workers : {J O : Type 0} → ℕ → List (Worker J O)
idle_workers zero = []
idle_workers (suc n) = Worker.waiting ∷ idle_workers n

-- The state in which `runBatch` has started its goroutines.
abbrev pub start : {J O : Type 0} → ℕ → List J → Pool J O
start parallel jobs = record {
  workers = idle_workers parallel;
  producer = next_job jobs;
  closed = false;
  stop = false;
  cancelled = false;
  tokens = 0;
  reported = [];
  failed = [];
  dropped = [];
}
