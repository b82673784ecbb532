-- ===== src/Benchmark/Report/Finalized.antt =====
-- internal/benchmark/report.go: what `Finalize` gives, for any number of runs that a machine can hold.
use harnesslab.Benchmark.Report.{RunSummary, VariantResult}
use harnesslab.Benchmark.Report.Breakdown.{
  Tally, FinalVariant, was_passed, one_passed, bump, tallies, executed, of_task, stats_of,
  task_result, build_by_task, final_variant, by_variant, finalize,
}
use harnesslab.Benchmark.Stats.{Arithmetic, compute_stat}
use harnesslab.Benchmark.Stats.Members.{compute_stat-members}
use harnesslab.Shared.Float.{Floats}
use harnesslab.Shared.Lexical.{by_text-IsStrictWeak}
use harnesslab.Shared.Sorting.{IsSorted, sort_slice, sort_slice-IsSorted, length-sort_slice}
use harnesslab.Shared.Panics.{Returns, >>=-Returns, map_all-Returns, length-map_all}
use text.Mathlib.TextEquality.{eq_iff}
use harnesslab.Shared.{
  ℕ, ◌+◌, ◌<◌, ◌≤◌, ◌^◌, ◌≡◌, refl, ap, ◌∙◌, String, Bool, true, false, not, ◌&&◌, some, List, [],
  ◌∷◌, ◌==◌, string_eq, if◌then◌else◌, bytes, map, keep, count, length, count-le-length,
  length-keep, All, arith, Bool-cases, inl, inr,
}

module _ (F : Floats) (A : Arithmetic F) where
  -- The counters of a task.
  abbrev pub total_of : String → List (Tally F A) → ℕ
  total_of id [] = 0
  total_of id (t ∷ ts) = if t.task_id == id then t.total else total_of id ts

  abbrev pub passed_of : String → List (Tally F A) → ℕ
  passed_of id [] = 0
  passed_of id (t ∷ ts) = if t.task_id == id then t.passed else passed_of id ts

  total_of-bump :
      (id : String) (r : RunSummary F) (ts : List (Tally F A))
      → total_of id (bump F A r ts) ≡ (if r.task_id == id then 1 else 0) + total_of id ts
  unfolding bump
  total_of-bump id r [] = ground arith
  total_of-bump id r (t ∷ ts) = ground (
    arith,
    eq_iff t.task_id id,
    eq_iff t.task_id r.task_id,
    eq_iff r.task_id id,
    total_of-bump id r ts,
  )

  passed_of-bump :
      (id : String) (r : RunSummary F) (ts : List (Tally F A))
      → passed_of id (bump F A r ts)
        ≡ (if r.task_id == id then one_passed F A (was_passed F A r) else 0) + passed_of id ts
  unfolding bump
  passed_of-bump id r [] = ground arith
  passed_of-bump id r (t ∷ ts) = ground (
    arith,
    eq_iff t.task_id id,
    eq_iff t.task_id r.task_id,
    eq_iff r.task_id id,
    passed_of-bump id r ts,
  )

  -- A run without a task counts for no task.
  other_id : (a b : String) → (a == "") ≡ true → (b == "") ≡ false → (a == b) ≡ false
  other_id a b h k = elim (Bool-cases (a == b)) [
    | inl e ↦ let same = ap (λ x. x == "") ((eq_iff a b).0 e) in cc
    | inr e ↦ e
  ]

  total_of-tallies :
      (id : String) (rs : List (RunSummary F)) (ts : List (Tally F A))
      → (id == "") ≡ false
      → total_of id (tallies F A rs ts) ≡ count (λ r. r.task_id == id) rs + total_of id ts
  unfolding tallies
  total_of-tallies id [] ts n = omega arith
  total_of-tallies id (r ∷ rs) ts n = elim (Bool-cases (r.task_id == "")) [
    | inl e ↦ rw (e, other_id r.task_id id e n) (omega (arith, total_of-tallies id rs ts n))
    | inr e ↦ rw e (omega (arith, total_of-tallies id rs (bump F A r ts) n, total_of-bump id r ts))
  ]

  -- The runs of a task that passed.
  abbrev passes : String → RunSummary F → Bool
  passes id r = r.task_id == id && was_passed F A r

  passed_if : (b p : Bool) → (if b && p then 1 else 0) ≡ (if b then one_passed F A p else 0)
  passed_if true p = refl
  passed_if false p = refl

  passed_of-tallies :
      (id : String) (rs : List (RunSummary F)) (ts : List (Tally F A))
      → (id == "") ≡ false
      → passed_of id (tallies F A rs ts) ≡ count (passes id) rs + passed_of id ts
  unfolding tallies
  passed_of-tallies id [] ts n = omega arith
  passed_of-tallies id (r ∷ rs) ts n = elim (Bool-cases (r.task_id == "")) [
    | inl e ↦ rw (e, other_id r.task_id id e n) (omega (arith, passed_of-tallies id rs ts n))
    | inr e ↦ rw e (
        omega (
          arith,
          passed_of-tallies id rs (bump F A r ts) n,
          passed_of-bump id r ts,
          passed_if (r.task_id == id) (was_passed F A r),
        ))
  ]

  -- In the breakdown of a variant's runs, a task's total is the number of the runs that name it, and
  -- its passed count the number of those that passed; a task that no run names has none.
  pub tallies-counts :
      (id : String) (runs : List (RunSummary F))
      → (id == "") ≡ false
      → (total_of id (tallies F A runs []) ≡ count (λ r. r.task_id == id) runs)
        × (passed_of id (tallies F A runs [])
            ≡ count (λ r. r.task_id == id && was_passed F A r) runs)
  tallies-counts id runs n =
      (omega (arith, total_of-tallies id runs [] n), omega (arith, passed_of-tallies id runs [] n))

  length-map : {X Y : Type 0} (f : X → Y) (xs : List X) → length (map f xs) ≡ length xs
  length-map f [] = refl
  length-map f (x ∷ xs) = omega (arith, length-map f xs)

  compute_stat-Returns :
      (values : List F.Float) → length values < 2 ^ 63 → Returns (compute_stat F A values)
  unfolding compute_stat
  compute_stat-Returns [] h = (_, refl)
  compute_stat-Returns (v ∷ vs) h =
      let r = compute_stat-members F A (v ∷ vs) (omega arith) h in (r.0, r.3)

  length-keep_le : {X : Type 0} (p : X → Bool) (xs : List X) → length (keep p xs) ≤ length xs
  length-keep_le p xs = omega (arith, length-keep p xs, count-le-length p xs)

  -- A metric of some of the runs.
  metric-Returns :
      (f : RunSummary F → F.Float) (runs : List (RunSummary F))
      → length runs < 2 ^ 63
      → Returns (compute_stat F A (map f runs))
  metric-Returns f runs h = compute_stat-Returns (map f runs) (omega (arith, length-map f runs))

  stats_of-Returns :
      (runs : List (RunSummary F)) → length runs < 2 ^ 63 → Returns (stats_of F A runs)
  unfolding stats_of
  stats_of-Returns runs h =
      let done = executed F A runs in
      let k : length done < 2 ^ 63 =
        omega (arith, length-keep_le (λ r. not (r.run_id == "")) runs) in
      >>=-Returns _ _ (metric-Returns _ done k) (λ a.
        >>=-Returns _ _ (metric-Returns _ done k) (λ b.
          >>=-Returns _ _ (metric-Returns _ done k)
            (λ c. >>=-Returns _ _ (metric-Returns _ done k) (λ d. (_, refl)))))

  task_result-Returns :
      (runs : List (RunSummary F)) (t : Tally F A)
      → length runs < 2 ^ 63
      → Returns (task_result F A runs t)
  unfolding task_result
  task_result-Returns runs t h =
      let done = of_task F A t.task_id (executed F A runs) in
      let k : length done < 2 ^ 63 = omega (
        arith,
        length-keep_le (λ r. not (r.run_id == "")) runs,
        length-keep_le (λ r. r.task_id == t.task_id) (executed F A runs),
      ) in
      >>=-Returns _ _ (metric-Returns _ done k) (λ a.
        >>=-Returns _ _ (metric-Returns _ done k)
          (λ b. >>=-Returns _ _ (metric-Returns _ done k) (λ c. (_, refl))))

  All-trivial : {X : Type 0} (xs : List X) → All (λ x. Unit {0}) xs
  All-trivial [] = tt
  All-trivial (x ∷ xs) = (tt, All-trivial xs)

  -- Few enough runs that a slice can hold them.
  abbrev pub Held : VariantResult F → Type 0
  Held v = length v.runs < 2 ^ 63

  final_variant-Returns : (v : VariantResult F) → Held v → Returns (final_variant F A v)
  unfolding final_variant build_by_task
  final_variant-Returns v h =
      >>=-Returns _ _
        (map_all-Returns (task_result F A v.runs) (λ t. Unit {0}) (tallies F A v.runs [])
          (λ t _. task_result-Returns v.runs t h) (All-trivial (tallies F A v.runs [])))
        (λ tasks. >>=-Returns _ _ (stats_of-Returns v.runs h) (λ stats. (_, refl)))

  -- `Finalize` ends without a panic for variants whose runs a slice can hold, whatever the arithmetic
  -- of float64 makes of the ranks of the percentiles: it keeps the number of the variants and puts
  -- them in the order of their names.
  pub finalize-Returns :
      (vs : List (VariantResult F))
      → All Held vs
      → (final : List (FinalVariant F A)) × (finalize F A vs ≡ some final)
        × (length final ≡ length vs)
        × IsSorted (by_variant F A) final
  unfolding finalize
  finalize-Returns vs h =
      let (all, e) = map_all-Returns (final_variant F A) Held vs final_variant-Returns h in
      (
        sort_slice (by_variant F A) all,
        rw e refl,
        length-sort_slice (by_variant F A) all ∙ length-map_all (final_variant F A) vs all e,
        sort_slice-IsSorted (by_variant F A) (by_text-IsStrictWeak (λ v. bytes v.result.variant))
            all,
      )
