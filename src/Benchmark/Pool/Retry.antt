-- ===== src/Benchmark/Pool/Retry.antt =====
-- internal/benchmark/scheduler.go: the jobs that `runBatch` returns for the next wave.
use harnesslab.Benchmark.Pool.{Readings, Worker, Pool, Move, Step, Reach, start}
use harnesslab.Shared.{
  ℕ, ◌≡◌, refl, ◌∙◌, ap, List, [], ◌∷◌, ◌++◌, if◌then◌else◌, Bool-cases, inl, inr, map, keep,
}

-- The jobs of the outcomes that have an error, in the order in which they were reported.
abbrev pub erred_jobs : {J O : Type 0} → Readings O → List (J × O) → List J
erred_jobs r reported = map (λ e. e.0) (keep (λ e. r.errored e.1) reported)

erred_jobs-snoc :
    {J O : Type 0} (r : Readings O) (es : List (J × O)) (j : J) (o : O)
    → erred_jobs r (es ++ (j, o) ∷ [])
      ≡ (if r.errored o then erred_jobs r es ++ j ∷ [] else erred_jobs r es)
erred_jobs-snoc r [] j o = elim (Bool-cases (r.errored o)) [ inl e ↦ rw e refl | inr e ↦ rw e refl ]
erred_jobs-snoc r ((i, u) ∷ es) j o = elim (Bool-cases (r.errored u)) [
  | inl e ↦ elim (Bool-cases (r.errored o)) [
    | inl f ↦ rw (e, f) (ap (λ l. i ∷ l) (erred_jobs-snoc r es j o ∙ (rw f refl)))
    | inr f ↦ rw (e, f) (ap (λ l. i ∷ l) (erred_jobs-snoc r es j o ∙ (rw f refl)))
  ]
  | inr e ↦ rw e (erred_jobs-snoc r es j o)
]

module _ {J O : Type 0} (r : Readings O) (max_tokens : ℕ) where
  abbrev Recorded : Pool J O → Type 0
  Recorded s = s.failed ≡ erred_jobs r s.reported

  Move-Recorded :
      {s s' : Pool J O} {w w' : Worker J O} → Move r max_tokens s w w' s' → Recorded s → Recorded s'
  Move-Recorded (Move.quit _) h = h
  Move-Recorded (Move.begin _) h = h
  Move-Recorded (Move.outcome _) h = h
  Move-Recorded Move.add h = h
  Move-Recorded Move.budget h = h
  Move-Recorded {s} (Move.settle {j} {o}) h = elim (Bool-cases (r.errored o)) [
    | inl e ↦ rw (erred_jobs-snoc r s.reported j o, e) (ap (λ l. l ++ j ∷ []) h)
    | inr e ↦ rw (erred_jobs-snoc r s.reported j o, e) h
  ]
  Move-Recorded (Move.drain _) h = h

  Step-Recorded : {s t : Pool J O} → Step r max_tokens s t → Recorded s → Recorded t
  Step-Recorded (Step.work before after e m) h = Move-Recorded m h
  Step-Recorded (Step.give_up _ _) h = h
  Step-Recorded (Step.pass _ _) h = h
  Step-Recorded (Step.ready _ _) h = h
  Step-Recorded (Step.nap _ _) h = h
  Step-Recorded (Step.hand_over _ _ _ _) h = h
  Step-Recorded (Step.close _) h = h
  Step-Recorded Step.cancel h = h

  Reach-Recorded : {s t : Pool J O} → Reach r max_tokens s t → Recorded s → Recorded t
  Reach-Recorded Reach.here h = h
  Reach-Recorded (Reach.later q st) h = Step-Recorded st (Reach-Recorded q h)

  -- In every state that the pool reaches, the jobs kept for a retry are exactly those whose reported
  -- outcome has an error, in the order of the reports.
  pub failed-erred_jobs :
      (n : ℕ) (jobs : List J) (t : Pool J O)
      → Reach r max_tokens (start n jobs) t
      → t.failed ≡ erred_jobs r t.reported
  failed-erred_jobs n jobs t q = Reach-Recorded q refl
