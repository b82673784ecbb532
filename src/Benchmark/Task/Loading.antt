-- ===== src/Benchmark/Task/Loading.antt =====
-- internal/benchmark/task.go: what `LoadTasks` promises of the tasks that it returns.
use harnesslab.Spec.Validate.{member}
use harnesslab.Benchmark.Task.{
  Task, LoadError, Loaded, Entry, Disk, valid_categories, set_dev, set_holdout, validate_task,
  and_load, unless, load_task_file, visit, walk_entries, in_walk, by_id, load_tasks, in_set,
  filter_by_set,
}
use mathlib.Core.Path.{subst}
use text.Mathlib.TextEquality.{eq_iff}
use harnesslab.Shared.Lexical.{by_text-IsStrictWeak, has_suffix}
use harnesslab.Shared.Sorting.{
  IsSorted, sort_slice, sort_slice-IsSorted, All-sort_slice, length-sort_slice,
}
use harnesslab.Shared.{
  ◌≡◌, refl, ap, String, ◌∙◌, ◌+◌, Bool, true, false, not, ◌&&◌, ◌||◌, Option, none, some, List, [],
  ◌∷◌, ◌++◌, Bytes, bytes, bytes_eq, string_eq, nat_eq, ◌==◌, length, if◌then◌else◌, All,
  All-append, Bool-cases, Option-cases, inl, inr, arith, count, if-cases,
}

-- A task that the scheduler can run: it has an id and a prompt, its category is a known one or empty,
-- and so is its set.
pub record IsTask (t : Task) : Type 0 where
  pub id : (t.id == []) ≡ false
  pub prompt : (t.prompt == "") ≡ false
  pub category : (t.category == "" || member valid_categories t.category) ≡ true
  pub set : (t.set == "" || t.set == set_dev || t.set == set_holdout) ≡ true

-- A guard that raised no error did not fire.
no_error :
    {E : Type 0} (b : Bool) (e : E) (r : Option E)
    → (if b then some e else r) ≡ none
    → (b ≡ false) × (r ≡ none)
no_error true e r h = cc
no_error false e r h = (refl, h)

either : (a b : Bool) → (not a && not b) ≡ false → (a || b) ≡ true
either a b h = ground arith

one_of_three : (a b c : Bool) → (not a && not b && not c) ≡ false → (a || b || c) ≡ true
one_of_three a b c h = ground arith

validate_task-IsTask : (t : Task) → validate_task t ≡ none → IsTask t
unfolding validate_task
validate_task-IsTask t h =
    let known = member valid_categories t.category in
    let (p, h1) = no_error (t.id == []) _ _ h in
    let (q, h2) = no_error (t.prompt == "") _ _ h1 in
    let (r, h3) = no_error (not (t.category == "") && not known) _ _ h2 in
    let (s, h4) =
      no_error (not (t.set == "") && not (t.set == set_dev) && not (t.set == set_holdout)) _ _ h3 in
    record {
      id = p;
      prompt = q;
      category = either (t.category == "") known r;
      set = one_of_three (t.set == "") (t.set == set_dev) (t.set == set_holdout) s;
    }

-- If the result is a value, the value has the property.
abbrev Gives : {A : Type 0} → (A → Type 0) → Loaded A → Type 0
Gives {A} P r = (a : A) → r ≡ Loaded.loaded a → P a

value_or : {A : Type 0} → A → Loaded A → A
value_or d (Loaded.failed e) = d
value_or d (Loaded.loaded a) = a

Gives-failed : {A : Type 0} (P : A → Type 0) (e : LoadError) → Gives P (Loaded.failed e)
Gives-failed P e a h = cc

Gives-loaded : {A : Type 0} (P : A → Type 0) (a : A) → P a → Gives P (Loaded.loaded a)
unfolding value_or
Gives-loaded P a p b h = subst P (ap (value_or a) h) p

and_load-Gives :
    {A B : Type 0} (P : A → Type 0) (Q : B → Type 0) (r : Loaded A) (f : A → Loaded B)
    → Gives P r
    → ((a : A) → P a → Gives Q (f a))
    → Gives Q (and_load r f)
unfolding and_load
and_load-Gives P Q (Loaded.failed e) f h k = Gives-failed Q e
and_load-Gives P Q (Loaded.loaded a) f h k = k a (h a refl)

Anything : {A : Type 0} → A → Type 0
Anything a = Unit

any_given : {A : Type 0} (r : Loaded A) → Gives Anything r
unfolding Anything
any_given r a h = tt

validated : (path : Bytes) (t : Task) → Gives IsTask (unless path (validate_task t) t)
validated path t = elim (Option-cases (validate_task t)) [
  | inl e ↦ rw e (Gives-loaded IsTask t (validate_task-IsTask t e))
  | inr (x, e) ↦ rw e (Gives-failed IsTask (LoadError.invalid path x))
]

module _ (d : Disk) where
  load_task_file-IsTask : (path : Bytes) → Gives IsTask (load_task_file d path)
  unfolding load_task_file
  load_task_file-IsTask path =
      and_load-Gives Anything IsTask _ _ (any_given _)
        (λ text _. and_load-Gives Anything IsTask _ _ (any_given _) (λ t _. validated path t))

  visit-IsTask : (e : Entry) (ts : List Task) → All IsTask ts → Gives (All IsTask) (visit d e ts)
  unfolding visit
  visit-IsTask e ts h =
      let P = Gives (All IsTask) in
      if-cases P e.erred (λ _. Gives-failed _ _)
        (λ _.
          if-cases P e.is_dir (λ _. Gives-loaded _ ts h)
            (λ _.
              if-cases P
                (not (has_suffix e.name (bytes ".yaml")) && not (has_suffix e.name (bytes ".yml")))
                (λ _. Gives-loaded _ ts h)
                (λ _. and_load-Gives IsTask (All IsTask) _ _ (load_task_file-IsTask e.path) (λ t p.
                  Gives-loaded (All IsTask) (ts ++ t ∷ [])
                    (All-append IsTask ts (t ∷ []) h (p, tt))))))

  walk_entries-IsTask :
      (es : List Entry) (ts : List Task) → All IsTask ts → Gives (All IsTask) (walk_entries d es ts)
  unfolding walk_entries
  walk_entries-IsTask [] ts h = Gives-loaded _ ts h
  walk_entries-IsTask (e ∷ es) ts h =
      and_load-Gives (All IsTask) (All IsTask) _ _ (visit-IsTask e ts h) (walk_entries-IsTask es)

  in_walk-IsTask :
      (path : Bytes) (r : Loaded (List Task))
      → Gives (All IsTask) r
      → Gives (All IsTask) (in_walk d path r)
  in_walk-IsTask path (Loaded.failed e) h = Gives-failed _ (LoadError.not_walked path e)
  in_walk-IsTask path (Loaded.loaded a) h = h

  -- What the benchmark gets: valid tasks, in the order of their ids, and at least one.
  abbrev pub Tasks : List Task → Type 0
  Tasks ts = All IsTask ts × IsSorted by_id ts × ((length ts == 0) ≡ false)

  in_order :
      (ts : List Task) → All IsTask ts → (length ts == 0) ≡ false → Tasks (sort_slice by_id ts)
  in_order ts h n = (
    All-sort_slice by_id IsTask ts h,
    sort_slice-IsSorted by_id (by_text-IsStrictWeak (λ t. t.id)) ts,
    ap (λ k. k == 0) (length-sort_slice by_id ts) ∙ n,
  )

  load_tasks-Gives : (path : Bytes) → Gives Tasks (load_tasks d path)
  unfolding load_tasks
  load_tasks-Gives path =
      let P = Gives Tasks in
      and_load-Gives Anything Tasks _ _ (any_given _) (λ is_dir _.
        if-cases P (not is_dir)
          (λ _.
            and_load-Gives IsTask Tasks _ _ (load_task_file-IsTask path)
              (λ t p. Gives-loaded Tasks (t ∷ []) ((p, tt), (tt, tt), refl)))
          (λ _.
            and_load-Gives (All IsTask) Tasks _ _
              (in_walk-IsTask path _ (walk_entries-IsTask (d.walk_dir path) [] tt))
              (λ ts h.
                if-cases P (length ts == 0) (λ _. Gives-failed Tasks (LoadError.no_tasks path))
                  (λ n. Gives-loaded Tasks (sort_slice by_id ts) (in_order ts h n)))))

  -- What `LoadTasks` returns for a file or a directory, if it returns no error, is a list of valid
  -- tasks in the order of their ids, and not an empty one.
  pub load_tasks-valid :
      (path : Bytes) (ts : List Task)
      → load_tasks d path ≡ Loaded.loaded ts
      → All IsTask ts × IsSorted by_id ts × ((length ts == 0) ≡ false)
  load_tasks-valid path ts h = load_tasks-Gives path ts h

length-in_set :
    (set : String) (ts : List Task) → length (in_set set ts) ≡ count (λ t. t.set == set) ts
length-in_set set [] = refl
length-in_set set (t ∷ ts) = ground (arith, length-in_set set ts)

one_set :
    (v : String)
    → (v == "" || v == set_dev || v == set_holdout) ≡ true
    → (if v == set_dev then 1 else 0)
        + (if v == set_holdout then 1 else 0)
        + (if v == "" then 1 else 0)
      ≡ 1
one_set v h = elim (Bool-cases (v == "")) [
  | inl e ↦ rw ((eq_iff v "").0 e) refl
  | inr e ↦ elim (Bool-cases (v == set_dev)) [
    | inl f ↦ rw ((eq_iff v set_dev).0 f) refl
    | inr f ↦
        let g : (v == set_holdout) ≡ true = rw (e, f) at h in rw ((eq_iff v set_holdout).0 g) refl
  ]
]

-- The filters for the sets dev and holdout share out the valid tasks: no task is in both, and only the
-- tasks without a set are in neither.
pub filter_by_set-partition :
    (ts : List Task)
    → All IsTask ts
    → length (filter_by_set ts set_dev)
        + length (filter_by_set ts set_holdout)
        + count (λ t. t.set == "") ts
      ≡ length ts
unfolding filter_by_set
filter_by_set-partition [] h = refl
filter_by_set-partition (t ∷ ts) (h, hs) = omega (
  arith,
  length-in_set set_dev (t ∷ ts),
  length-in_set set_holdout (t ∷ ts),
  length-in_set set_dev ts,
  length-in_set set_holdout ts,
  one_set t.set h.set,
  filter_by_set-partition ts hs,
)
