-- ===== src/Benchmark/Pool/Hang.antt =====
-- internal/benchmark/scheduler.go: the wait of `runBatch` for its workers, once its producer has
-- stopped.
use harnesslab.Benchmark.Pool.{
  Readings, Worker, Producer, Pool, in_budget, exceeded, Move, Step, Reach, start, idle_workers,
}
use mathlib.Core.Path.{subst}
use harnesslab.Shared.{
  ℕ, suc, ◌≡◌, refl, ◌∙◌, true, false, ◌||◌, List, [], ◌∷◌, ◌++◌, In, here, there, arith, ◌⊎◌, inl,
  inr,
}
use harnesslab.Shared.Int64.{add64, slt64, sle64}

module _ {J O : Type 0} where
  -- The producer has returned and left the channel open, and a worker waits for a job.
  pub record IsStranded (s : Pool J O) : Type 0 where
    pub gone : s.producer ≡ Producer.returned
    pub left_open : s.closed ≡ false
    pub stuck : In Worker.waiting s.workers

  -- `wg.Wait()` and `<-done` are over: each worker has exited, and the producer has ended.
  abbrev pub AllExited : List (Worker J O) → Type 0
  AllExited [] = Unit
  AllExited (w ∷ ws) = (w ≡ Worker.exited) × AllExited ws

In-middle :
    {A : Type 0} {a : A} (before after : List A) (w w' : A)
    → In a (before ++ w ∷ after)
    → (In a (before ++ w' ∷ after)) ⊎ (w ≡ a)
In-middle [] after w w' (here e) = inr e
In-middle [] after w w' (there i) = inl (there i)
In-middle (b ∷ before) after w w' (here e) = inl (here e)
In-middle (b ∷ before) after w w' (there i) = elim (In-middle before after w w' i) [
  | inl k ↦ inl (there k)
  | inr e ↦ inr e
]

not-AllExited : {J O : Type 0} (ws : List (Worker J O)) → In Worker.waiting ws → ¬ AllExited ws
not-AllExited [] i h = elim i [ ]
not-AllExited (w ∷ ws) (here e) (q, _) = cc
not-AllExited (w ∷ ws) (there i) (_, h) = not-AllExited ws i h

module _ {J O : Type 0} (r : Readings O) (max_tokens : ℕ) where
  Move-kept :
      {s s' : Pool J O} {w w' : Worker J O}
      → Move r max_tokens s w w' s'
      → (s'.producer ≡ s.producer) × (s'.closed ≡ s.closed)
  Move-kept (Move.quit h) = (refl, refl)
  Move-kept (Move.begin h) = (refl, refl)
  Move-kept (Move.outcome o) = (refl, refl)
  Move-kept Move.add = (refl, refl)
  Move-kept Move.budget = (refl, refl)
  Move-kept Move.settle = (refl, refl)
  Move-kept (Move.drain h) = (refl, refl)

  -- A worker that waits moves on only when the channel is closed, or with a job.
  Move-waiting :
      {s s' : Pool J O} {w w' : Worker J O}
      → Move r max_tokens s w w' s'
      → w ≡ Worker.waiting
      → s.closed ≡ true
  Move-waiting (Move.quit h) e = cc
  Move-waiting (Move.begin h) e = cc
  Move-waiting (Move.outcome o) e = cc
  Move-waiting Move.add e = cc
  Move-waiting Move.budget e = cc
  Move-waiting Move.settle e = cc
  Move-waiting (Move.drain h) e = h

  Step-IsStranded : {s t : Pool J O} → Step r max_tokens s t → IsStranded s → IsStranded t
  Step-IsStranded (Step.work {w} {w'} before after e m) h =
      let (p, q) = Move-kept m in
      record {
        gone = p ∙ h.gone;
        left_open = q ∙ h.left_open;
        stuck = elim (In-middle before after w w' (subst (In Worker.waiting) e h.stuck)) [
          | inl i ↦ i
          | inr i ↦ cc (Move-waiting m i, h.left_open)
        ];
      }
  Step-IsStranded (Step.give_up e _) h = cc (e, h.gone)
  Step-IsStranded (Step.pass e _) h = cc (e, h.gone)
  Step-IsStranded (Step.ready e _) h = cc (e, h.gone)
  Step-IsStranded (Step.nap e _) h = cc (e, h.gone)
  Step-IsStranded (Step.hand_over before after e _) h = cc (e, h.gone)
  Step-IsStranded (Step.close e) h = cc (e, h.gone)
  Step-IsStranded Step.cancel h = record { gone = h.gone; left_open = h.left_open; stuck = h.stuck }

  Reach-IsStranded : {s t : Pool J O} → Reach r max_tokens s t → IsStranded s → IsStranded t
  Reach-IsStranded Reach.here h = h
  Reach-IsStranded (Reach.later q st) h = Step-IsStranded st (Reach-IsStranded q h)

  -- From a state in which the producer has returned without closing the channel while a worker waits
  -- on it, the workers have not all exited in any later state: `runBatch` never returns.
  pub never_returns :
      {s t : Pool J O} → IsStranded s → Reach r max_tokens s t → ¬ AllExited t.workers
  never_returns {t} h q = not-AllExited t.workers (Reach-IsStranded q h).stuck

  infixl 10 ◌▸◌
  abbrev ◌▸◌ :
      {s t u : Pool J O} → Reach r max_tokens s t → Step r max_tokens t u → Reach r max_tokens s u
  q ▸ st = Reach.later q st

  -- With two workers or more and four jobs or more, an outcome that spends the token budget can leave
  -- `runBatch` in such a state.
  pub budget_hang :
      (n : ℕ) (j1 j2 j3 j4 : J) (js : List J) (o o' : O)
      → slt64 0 max_tokens ≡ true
      → sle64 max_tokens (add64 0 (r.tokens_of o)) ≡ true
      → (s : Pool J O) × Reach r max_tokens (start (suc (suc n)) (j1 ∷ j2 ∷ j3 ∷ j4 ∷ js)) s
        × IsStranded s
  budget_hang n j1 j2 j3 j4 js o o' p q =
      let more : List (Worker J O) = idle_workers n in
      let fits : in_budget max_tokens 0 ≡ true = ground arith in
      let spent : (false || exceeded max_tokens (add64 0 (r.tokens_of o))) ≡ true =
        rw (p, q) refl in
      (
        _,
        Reach.here
            ▸ Step.pass refl refl
            ▸ Step.ready refl fits
            ▸ Step.hand_over [] (Worker.waiting ∷ more) refl refl
            ▸ Step.work [] (Worker.waiting ∷ more) refl (Move.begin refl)
            ▸ Step.pass refl refl
            ▸ Step.ready refl fits
            ▸ Step.hand_over (Worker.running j1 ∷ []) more refl refl
            ▸ Step.work (Worker.running j1 ∷ []) more refl (Move.begin refl)
            ▸ Step.pass refl refl
            ▸ Step.ready refl fits
            ▸ Step.work [] (Worker.running j2 ∷ more) refl (Move.outcome o)
            ▸ Step.work [] (Worker.running j2 ∷ more) refl Move.add
            ▸ Step.work [] (Worker.running j2 ∷ more) refl Move.budget
            ▸ Step.work [] (Worker.running j2 ∷ more) refl Move.settle
            ▸ Step.hand_over [] (Worker.running j2 ∷ more) refl refl
            ▸ Step.give_up refl spent
            ▸ Step.work (Worker.received j3 ∷ []) more refl (Move.outcome o')
            ▸ Step.work (Worker.received j3 ∷ []) more refl Move.add
            ▸ Step.work (Worker.received j3 ∷ []) more refl Move.budget
            ▸ Step.work (Worker.received j3 ∷ []) more refl Move.settle,
        record { gone = refl; left_open = refl; stuck = there (here refl) },
      )
