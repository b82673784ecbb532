-- ===== src/Benchmark/Pool/Accounts.antt =====
-- internal/benchmark/scheduler.go: what becomes of the jobs of a batch.
use harnesslab.Benchmark.Pool.{
  Readings, Worker, Producer, Pool, next_job, Move, Step, Reach, start, idle_workers,
}
use harnesslab.Shared.{
  ℕ, zero, suc, ◌+◌, ◌≤◌, ◌≡◌, refl, ap, Bool, List, [], ◌∷◌, ◌++◌, if◌then◌else◌, arith, count,
  count-append,
}

abbrev pub one : {J : Type 0} → (J → Bool) → J → ℕ
one p j = if p j then 1 else 0

module _ {J O : Type 0} (p : J → Bool) where
  -- The job that a worker has in hand.
  abbrev pub held : Worker J O → ℕ
  held Worker.waiting = 0
  held (Worker.received j) = one p j
  held (Worker.running j) = one p j
  held (Worker.ran j o) = one p j
  held (Worker.added j o) = one p j
  held (Worker.settling j o) = one p j
  held Worker.exited = 0

  abbrev pub held_all : List (Worker J O) → ℕ
  held_all [] = 0
  held_all (w ∷ ws) = held w + held_all ws

  -- The jobs that the producer has left.
  abbrev pending : Producer J O → ℕ
  pending (Producer.checking j js) = one p j + count p js
  pending (Producer.passed j js) = one p j + count p js
  pending (Producer.sending j js) = one p j + count p js
  pending Producer.closing = 0
  pending Producer.finished = 0
  pending Producer.returned = 0

  abbrev pub settled : Pool J O → ℕ
  settled s = count (λ e. p e.0) s.reported

  -- How many of the jobs that pass the test `p` are somewhere in the pool.
  abbrev tracked : Pool J O → ℕ
  tracked s = settled s + held_all s.workers + pending s.producer + count p s.dropped

  held_all-append : (ws vs : List (Worker J O)) → held_all (ws ++ vs) ≡ held_all ws + held_all vs
  held_all-append [] vs = omega arith
  held_all-append (w ∷ ws) vs = omega (arith, held_all-append ws vs)

pending-next_job :
    {J : Type 0} (O : Type 0) (p : J → Bool) (js : List J)
    → pending {J = J} {O = O} p (next_job js) ≡ count p js
pending-next_job O p [] = refl
pending-next_job O p (j ∷ js) = refl

held_all-idle_workers :
    {J : Type 0} (O : Type 0) (p : J → Bool) (n : ℕ)
    → held_all {J = J} {O = O} p (idle_workers n) ≡ 0
held_all-idle_workers O p zero = refl
held_all-idle_workers O p (suc n) = omega (arith, held_all-idle_workers O p n)

module _ {J O : Type 0} (p : J → Bool) where
  module _ (r : Readings O) (max_tokens : ℕ) where
    -- What a worker has in hand, and what has left the workers, keep their sum.
    Move-tracked :
        {s s' : Pool J O} {w w' : Worker J O}
        → Move r max_tokens s w w' s'
        → (settled p s' + held p w' + count p s'.dropped
            ≡ settled p s + held p w + count p s.dropped)
          × (s'.producer ≡ s.producer)
    Move-tracked (Move.quit h) = (omega arith, refl)
    Move-tracked (Move.begin h) = (omega arith, refl)
    Move-tracked (Move.outcome o) = (omega arith, refl)
    Move-tracked Move.add = (omega arith, refl)
    Move-tracked Move.budget = (omega arith, refl)
    Move-tracked {s} (Move.settle {j} {o}) =
        (omega (arith, count-append (λ e. p e.0) s.reported ((j, o) ∷ [])), refl)
    Move-tracked (Move.drain h) = (omega arith, refl)

    Step-tracked : {s t : Pool J O} → Step r max_tokens s t → tracked p t ≤ tracked p s
    Step-tracked {s} (Step.work {w} {w'} {s'} before after e m) =
        let (q, g) = Move-tracked m in
        omega (
          arith,
          q,
          ap (pending p) g,
          ap (held_all p) e,
          held_all-append p before (w ∷ after),
          held_all-append p before (w' ∷ after),
        )
    Step-tracked (Step.give_up e h) = omega (arith, ap (pending p) e)
    Step-tracked (Step.pass e h) = omega (arith, ap (pending p) e)
    Step-tracked (Step.ready e h) = omega (arith, ap (pending p) e)
    Step-tracked (Step.nap e h) = omega (arith, ap (pending p) e)
    Step-tracked (Step.hand_over {j} {js} before after e w) = omega (
      arith,
      ap (pending p) e,
      ap (held_all p) w,
      held_all-append p before (Worker.waiting ∷ after),
      held_all-append p before (Worker.received j ∷ after),
      pending-next_job O p js,
    )
    Step-tracked (Step.close e) = omega (arith, ap (pending p) e)
    Step-tracked Step.cancel = omega arith

    Reach-tracked : {s t : Pool J O} → Reach r max_tokens s t → tracked p t ≤ tracked p s
    Reach-tracked Reach.here = omega arith
    Reach-tracked (Reach.later q st) = omega (arith, Step-tracked st, Reach-tracked q)

    -- Whatever the interleaving, no job is reported more often than it was handed in: for every test
    -- on jobs, the reported jobs that pass it are at most the jobs of the batch that pass it, also
    -- together with those that workers have in hand.
    pub settled-le-count :
        (n : ℕ) (jobs : List J) (t : Pool J O)
        → Reach r max_tokens (start n jobs) t
        → settled p t + held_all p t.workers ≤ count p jobs
    settled-le-count n jobs t q =
        omega (arith, Reach-tracked q, held_all-idle_workers O p n, pending-next_job O p jobs)
