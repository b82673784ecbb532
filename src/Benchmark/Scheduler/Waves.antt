-- ===== src/Benchmark/Scheduler/Waves.antt =====
-- internal/benchmark/scheduler.go: the waves of `Run`, each a run of the pool.
use harnesslab.Benchmark.Pool.{Readings, Pool, Reach, start}
use harnesslab.Benchmark.Pool.Accounts.{settled-le-count}
use harnesslab.Benchmark.Pool.Retry.{erred_jobs, failed-erred_jobs}
use harnesslab.Benchmark.Scheduler.{Reported, going, run_waves, run_jobs}
use harnesslab.Shared.Int64.{sle64}
use mathlib.Core.Path.{subst}
use mathlib.Core.Option.{some-injective}
use harnesslab.Shared.{
  ℕ, zero, suc, ◌+◌, ◌*◌, ◌^◌, ◌<◌, ◌≤◌, ◌≡◌, refl, sym, ap, ◌∙◌, Bool, true, false, none, some,
  List, [], ◌∷◌, ◌++◌, nat_eq, ◌==◌, length, count, count-append, if◌then◌else◌, if-cases,
  Bool-cases, inl, inr, arith,
}

given : {X : Type 0} (b : Bool) (x y : X) → (if b then none else some x) ≡ some y → x ≡ y
given true x y h = cc
given false x y h = some-injective x y h

module _ {J O : Type 0} (r : Readings O) (p : J → Bool) where
  -- The reports on jobs that pass the test.
  abbrev pub reports_on : List (J × O) → ℕ
  reports_on reported = count (λ e. p e.0) reported

  erred_jobs-le : (reported : List (J × O)) → count p (erred_jobs r reported) ≤ reports_on reported
  erred_jobs-le [] = omega arith
  erred_jobs-le ((j, o) ∷ rest) = ground (arith, erred_jobs-le rest)

  module _ (max_tokens parallel : ℕ) (ended : ℕ → Bool) (batch : ℕ → List J → Pool J O) (retry : ℕ)
      (pool : (k : ℕ) (jobs : List J)
        → Reach r max_tokens (start parallel jobs) (batch k jobs)) where
    batch-reports : (k : ℕ) (jobs : List J) → reports_on (batch k jobs).reported ≤ count p jobs
    batch-reports k jobs =
        omega (arith, settled-le-count p r max_tokens parallel jobs (batch k jobs) (pool k jobs))

    batch-failed :
        (k : ℕ) (jobs : List J) → count p (batch k jobs).failed ≤ reports_on (batch k jobs).reported
    batch-failed k jobs =
        rw (failed-erred_jobs r max_tokens parallel jobs (batch k jobs) (pool k jobs))
          (erred_jobs-le (batch k jobs).reported)

    times-le : (n a b : ℕ) → a ≤ b → n * a ≤ n * b
    times-le zero a b h = omega arith
    times-le (suc n) a b h = grind (arith, times-le n a b h)

    pub waves-reports :
        (fuel attempt : ℕ) (current : List J) (reported : List (J × O))
        → reports_on (run_waves ended batch retry fuel attempt current reported).outcomes
          ≤ reports_on reported + fuel * count p current
    unfolding run_waves
    waves-reports zero attempt current reported = omega arith
    waves-reports (suc fuel) attempt current reported =
        let wave = batch attempt current in
        let c = count p current in
        let all = reported ++ wave.reported in
        let P : Reported J O → Type 0 =
          λ w. reports_on w.outcomes ≤ reports_on reported + suc fuel * c in
        let split : reports_on all ≡ reports_on reported + reports_on wave.reported =
          count-append (λ e. p e.0) reported wave.reported in
        let less : count p wave.failed ≤ c =
          omega (arith, batch-failed attempt current, batch-reports attempt current) in
        let more : fuel * count p wave.failed ≤ fuel * c =
          times-le fuel (count p wave.failed) c less in
        let next : suc fuel * c ≡ c + fuel * c = grind arith in
        if-cases P (going ended retry attempt current)
          (λ _. omega (
            arith,
            split,
            more,
            next,
            batch-reports attempt current,
            waves-reports fuel (attempt + 1) wave.failed all,
          ))
          (λ _. omega (arith, next))

    pub waves-le :
        (fuel attempt : ℕ) (current : List J) (reported : List (J × O))
        → (run_waves ended batch retry fuel attempt current reported).waves ≤ attempt + fuel
    unfolding run_waves
    waves-le zero attempt current reported = omega arith
    waves-le (suc fuel) attempt current reported =
        let wave = batch attempt current in
        if-cases (λ (w : Reported J O). w.waves ≤ attempt + suc fuel)
          (going ended retry attempt current)
          (λ _. omega (arith, waves-le fuel (attempt + 1) wave.failed (reported ++ wave.reported)))
          (λ _. omega arith)

module _ {J O : Type 0} (ended : ℕ → Bool) (batch : ℕ → List J → Pool J O) (retry : ℕ)
    (small : retry + 1 < 2 ^ 63) where
  no_attempt :
      (attempt : ℕ) (current : List J)
      → attempt ≡ retry + 1
      → going ended retry attempt current ≡ false
  unfolding going sle64
  no_attempt attempt current e = ground arith

  going-le :
      (attempt : ℕ) (current : List J)
      → going ended retry attempt current ≡ true
      → attempt ≤ retry + 1
      → attempt ≤ retry
  unfolding going sle64
  going-le attempt current g h = ground arith

  -- Two amounts of fuel that both last for the attempts left give the same.
  same_waves :
      (f k attempt : ℕ) (current : List J) (reported : List (J × O))
      → attempt ≤ retry + 1
      → retry + 1 ≤ attempt + f
      → retry + 1 ≤ attempt + k
      → run_waves ended batch retry f attempt current reported
        ≡ run_waves ended batch retry k attempt current reported
  unfolding run_waves
  same_waves zero zero attempt current reported h a b = refl
  same_waves zero (suc k) attempt current reported h a b =
      rw (no_attempt attempt current (omega arith)) refl
  same_waves (suc f) zero attempt current reported h a b =
      rw (no_attempt attempt current (omega arith)) refl
  same_waves (suc f) (suc k) attempt current reported h a b =
      elim (Bool-cases (going ended retry attempt current)) [
        | inr g ↦ rw g refl
        | inl g ↦
            let wave = batch attempt current in
            let le = going-le attempt current g h in
            rw g (
              same_waves f k (attempt + 1) wave.failed (reported ++ wave.reported) (omega arith)
                (omega arith) (omega arith))
      ]

  -- The fuel of the loop is enough: with any more it makes the same waves and the same reports.
  pub run_waves-enough :
      (fuel : ℕ) (jobs : List J)
      → retry + 1 ≤ fuel
      → run_waves ended batch retry fuel 0 jobs []
        ≡ run_waves ended batch retry (suc retry) 0 jobs []
  run_waves-enough fuel jobs h =
      same_waves fuel (suc retry) 0 jobs [] (omega arith) (omega arith) (omega arith)

-- With any two fuels of at least one more than the number of retries, the loop over the waves gives the same:
-- it ends by its own test, after at most one wave more than the retries, whatever the interleavings in the pool,
-- and a job is reported at most that many times for each time that it was handed in (for every test on jobs,
-- the reports on jobs that pass it are counted).
pub run_jobs-bounded :
    {J O : Type 0} (r : Readings O) (p : J → Bool) (max_tokens parallel : ℕ) (ended : ℕ → Bool)
    (batch : ℕ → List J → Pool J O) (retry : ℕ)
    → ((k : ℕ) (jobs : List J) → Reach r max_tokens (start parallel jobs) (batch k jobs))
    → retry + 1 < 2 ^ 63
    → (fuel more : ℕ) (jobs : List J) (res : Reported J O) → retry + 1 ≤ fuel
    → retry + 1 ≤ more
    → run_jobs ended batch retry fuel jobs ≡ some res
    → (run_jobs ended batch retry more jobs ≡ some res)
      × (res.waves ≤ suc retry)
      × (reports_on r p res.outcomes ≤ suc retry * count p jobs)
unfolding run_jobs
run_jobs-bounded r p max_tokens parallel ended batch retry pool small fuel more jobs res enough k
      h =
    let least = run_waves ended batch retry (suc retry) 0 jobs [] in
    let same = λ (n : ℕ) (k : retry + 1 ≤ n). run_waves-enough ended batch retry small n jobs k in
    let e : least ≡ res =
      sym (same fuel enough)
      ∙ given (length jobs == 0) (run_waves ended batch retry fuel 0 jobs []) res h in
    (
      ap (λ w. if length jobs == 0 then none else some w) (same more k ∙ sym (same fuel enough))
          ∙ h,
      subst (λ v. v.waves ≤ suc retry) e
          (omega
            (arith, waves-le r p max_tokens parallel ended batch retry pool (suc retry) 0 jobs [])),
      subst (λ v. reports_on r p v.outcomes ≤ suc retry * count p jobs) e
          (omega (
            arith,
            waves-reports r p max_tokens parallel ended batch retry pool (suc retry) 0 jobs [],
          )),
    )
