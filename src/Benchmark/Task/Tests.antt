-- ===== src/Benchmark/Task/Tests.antt =====
-- internal/benchmark/task.go: a directory with two task files and one other file.
use harnesslab.Benchmark.Task.{
  Task, Loaded, Entry, Disk, and_load, by_id, validate_task, walk_entries, visit, load_task_file,
  load_tasks,
}
use harnesslab.Benchmark.Task.Loading.{IsTask, load_tasks-valid}
use harnesslab.Shared.Text.{bytes_beq}
use harnesslab.Shared.Lexical.{bytes_ltb}
use harnesslab.Shared.Sorting.{IsSorted, sort_slice}
use harnesslab.Shared.{
  ◌≡◌, refl, true, false, Option, none, some, [], ◌∷◌, Bytes, bytes, bytes_eq, string_eq, nat_eq,
  ◌==◌, length, All, if◌then◌else◌,
}

abbrev pub task : Task
task = record {
  id = bytes "t1";
  category = "basic";
  set = "dev";
  repo = "r";
  commit = "c";
  prompt = "p";
  verification = record {
    strategy = "final";
    commands = "go test" ∷ [];
    require_clean_git = false;
  };
  success = record { require_verification_pass = none; require_workspace_change = none };
}

abbrev earlier : Task
earlier = record task { id = bytes "t0"; set = "" }

abbrev file : Bytes → Entry
file name = record { path = name; name = name; is_dir = false; erred = false }

abbrev parsed : Bytes → Option Task
parsed text = if text == bytes "a.yaml" then some task else some earlier

-- A file's text is its name.
abbrev disk : Disk
disk = record {
  stat = λ p. some true;
  read_file = λ p. some p;
  walk_dir = λ p. file (bytes "a.yaml") ∷ file (bytes "b.yml") ∷ file (bytes "notes.txt") ∷ [];
  parse_task = parsed;
  parse_task_set = λ t. none;
}

two_tasks : load_tasks disk (bytes "tasks") ≡ Loaded.loaded (earlier ∷ task ∷ [])
unfolding load_tasks and_load walk_entries visit load_task_file validate_task bytes_beq bytes_ltb
    sort_slice
two_tasks = refl

load_tasks-valid_example :
    All IsTask (earlier ∷ task ∷ [])
    × IsSorted by_id (earlier ∷ task ∷ [])
    × ((length (earlier ∷ task ∷ []) == 0) ≡ false)
load_tasks-valid_example = load_tasks-valid disk (bytes "tasks") (earlier ∷ task ∷ []) two_tasks

both-IsTask : All IsTask (earlier ∷ task ∷ [])
both-IsTask = (load_tasks-valid disk (bytes "tasks") (earlier ∷ task ∷ []) two_tasks).0
