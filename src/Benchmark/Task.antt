-- ===== src/Benchmark/Task.antt =====
-- internal/benchmark/task.go: benchmark tasks and task sets. The disk and the parser of YAML are
-- parameters; a walk over a directory is the list of the entries that it visits, in order.
pub mod Loading
pub mod Tests
use harnesslab.Spec.Types.{VerificationSpec, SuccessSpec}
use harnesslab.Spec.Validate.{member}
use harnesslab.Shared.Text.{bytes_beq}
use harnesslab.Shared.Lexical.{bytes_ltb, has_suffix}
use harnesslab.Shared.Sorting.{sort_slice}
use harnesslab.Shared.{
  String, Bool, true, false, not, ◌&&◌, ◌||◌, Option, none, some, List, [], ◌∷◌, ◌++◌, Bytes, bytes,
  bytes_eq, string_eq, nat_eq, ◌==◌, length, if◌then◌else◌,
}

abbrev pub valid_categories : List String
valid_categories =
    "basic" ∷ "debugging" ∷ "multi-file" ∷ "refactor" ∷ "testing" ∷ "concurrency" ∷ "context-heavy"
    ∷ "tool-heavy" ∷ []

abbrev pub set_dev : String
set_dev = "dev"

abbrev pub set_holdout : String
set_holdout = "holdout"

pub record Task : Type 0 where
  pub id : Bytes
  pub category : String
  pub set : String
  pub repo : String
  pub commit : String
  pub prompt : String
  pub verification : VerificationSpec
  pub success : SuccessSpec

pub data TaskError : Type 0 where
  missing_id : TaskError
  missing_prompt : Bytes → TaskError
  unsupported_category unsupported_set : Bytes → String → TaskError

unfoldable pub validate_task : Task → Option TaskError
validate_task t =
    if t.id == []
    then some TaskError.missing_id
    else if t.prompt == ""
    then some (TaskError.missing_prompt t.id)
    else if not (t.category == "") && not (member valid_categories t.category)
    then some (TaskError.unsupported_category t.id t.category)
    else if not (t.set == "") && not (t.set == set_dev) && not (t.set == set_holdout)
    then some (TaskError.unsupported_set t.id t.set)
    else none

pub data LoadError : Type 0 where
  no_path not_read not_parsed no_tasks not_visited : Bytes → LoadError
  invalid : Bytes → TaskError → LoadError
  not_walked : Bytes → LoadError → LoadError

pub data Loaded (A : Type 0) : Type 0 where
  failed : LoadError → Loaded A
  loaded : A → Loaded A

unfoldable pub and_load : {A B : Type 0} → Loaded A → (A → Loaded B) → Loaded B
and_load (Loaded.failed e) f = Loaded.failed e
and_load (Loaded.loaded a) f = f a

abbrev pub by_id : Task → Task → Bool
by_id s t = bytes_ltb s.id t.id

-- What `filepath.WalkDir` hands to its callback.
pub record Entry : Type 0 where
  pub path : Bytes
  pub name : Bytes
  pub is_dir : Bool
  pub erred : Bool

pub record TaskSet : Type 0 where
  pub id : String
  pub name : String
  pub tasks : List Bytes

pub record Disk : Type 0 where
  -- Whether the path is a directory, if it is there.
  pub stat : Bytes → Option Bool
  pub read_file : Bytes → Option Bytes
  pub walk_dir : Bytes → List Entry
  pub parse_task : Bytes → Option Task
  pub parse_task_set : Bytes → Option TaskSet

abbrev pub or_fail : {A : Type 0} → LoadError → Option A → Loaded A
or_fail e none = Loaded.failed e
or_fail e (some a) = Loaded.loaded a

abbrev pub unless : {A : Type 0} → Bytes → Option TaskError → A → Loaded A
unless path none a = Loaded.loaded a
unless path (some e) a = Loaded.failed (LoadError.invalid path e)

module _ (d : Disk) where
  unfoldable pub load_task_file : Bytes → Loaded Task
  load_task_file path = and_load (or_fail (LoadError.not_read path) (d.read_file path)) (λ text.
      and_load (or_fail (LoadError.not_parsed path) (d.parse_task text))
        (λ t. unless path (validate_task t) t))

  -- The callback of the walk.
  unfoldable pub visit : Entry → List Task → Loaded (List Task)
  visit e tasks =
      if e.erred
      then Loaded.failed (LoadError.not_visited e.path)
      else if e.is_dir
      then Loaded.loaded tasks
      else if not (has_suffix e.name (bytes ".yaml")) && not (has_suffix e.name (bytes ".yml"))
      then Loaded.loaded tasks
      else and_load (load_task_file e.path) (λ t. Loaded.loaded (tasks ++ t ∷ []))

  unfoldable pub walk_entries : List Entry → List Task → Loaded (List Task)
  walk_entries [] tasks = Loaded.loaded tasks
  walk_entries (e ∷ es) tasks = and_load (visit e tasks) (walk_entries es)

  abbrev pub in_walk : {A : Type 0} → Bytes → Loaded A → Loaded A
  in_walk path (Loaded.failed e) = Loaded.failed (LoadError.not_walked path e)
  in_walk path (Loaded.loaded a) = Loaded.loaded a

  unfoldable pub load_tasks : Bytes → Loaded (List Task)
  load_tasks path = and_load (or_fail (LoadError.no_path path) (d.stat path)) (λ is_dir.
      if not is_dir
      then and_load (load_task_file path) (λ t. Loaded.loaded (t ∷ []))
      else and_load (in_walk path (walk_entries (d.walk_dir path) [])) (λ tasks.
        if length tasks == 0
        then Loaded.failed (LoadError.no_tasks path)
        else Loaded.loaded (sort_slice by_id tasks)))

  unfoldable pub load_task_set : Bytes → Loaded TaskSet
  load_task_set path = and_load (or_fail (LoadError.not_read path) (d.read_file path)) (λ text.
      and_load (or_fail (LoadError.not_parsed path) (d.parse_task_set text)) (λ ts.
        if length ts.tasks == 0 then Loaded.failed (LoadError.no_tasks path) else Loaded.loaded ts))

abbrev listed_in : Bytes → List Bytes → Bool
listed_in id [] = false
listed_in id (t ∷ rest) = let later = listed_in id rest in if t == id then true else later

unfoldable pub contains_id : TaskSet → Bytes → Bool
contains_id ts id = listed_in id ts.tasks

abbrev pub in_set : String → List Task → List Task
in_set set [] = []
in_set set (t ∷ rest) = let later = in_set set rest in if t.set == set then t ∷ later else later

unfoldable pub filter_by_set : List Task → String → List Task
filter_by_set tasks set = if set == "" then tasks else in_set set tasks

abbrev in_task_set : TaskSet → List Task → List Task
unfolding contains_id
in_task_set ts [] = []
in_task_set ts (t ∷ rest) =
    let later = in_task_set ts rest in if contains_id ts t.id then t ∷ later else later

unfoldable pub filter_by_task_set : List Task → Option TaskSet → List Task
unfolding in_task_set
filter_by_task_set tasks none = tasks
filter_by_task_set tasks (some ts) = in_task_set ts tasks
