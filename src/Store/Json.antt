-- ===== src/Store/Json.antt =====
-- internal/store/jsonstore/jsonstore.go: one file for each run. The file system, filepath.Join and the
-- coder of JSON are parameters.
pub mod Kept
use harnesslab.Store.{Run}
use harnesslab.Store.Interface.{RunStore, attempted}
use harnesslab.Shared.Float.{Floats}
use harnesslab.Shared.Sorting.{sort_slice}
use harnesslab.Shared.{
  ℕ, String, Bool, true, false, ◌||◌, not, ◌==◌, string_eq, Option, none, some, List, [], ◌∷◌, ◌++◌,
  Bytes, ltb, if◌then◌else◌,
}
use Prim.Native.String.{◌++◌ as ◌<>◌}
use Prim.Native.Char.{Char}

pub record DirEntry : Type 0 where
  pub is_dir : Bool
  pub name : String

abbrev pub put_char : Char → Option String → Option String
put_char c none = none
put_char c (some id) = some (String.◌∷◌ c id)

-- `strings.HasSuffix` and `strings.TrimSuffix` for ".json".
unfoldable pub json_id : String → Option String
json_id String.[] = none
json_id (String.◌∷◌ c name) =
    let rest = json_id name in if String.◌∷◌ c name == ".json" then some "" else put_char c rest

-- The operations of the package os on the directory of the store.
pub record Files : Type 1 where
  pub State : Type 0
  pub read_file : String → State → Option Bytes
  pub write_file : String → Bytes → State → Option State
  pub read_dir : String → State → Option (List DirEntry)
  pub mkdir_all : String → State → Option State

-- `New`
unfoldable pub open_store : (D : Files) → String → D.State → Option (String × D.State)
open_store D dir s = elim (D.mkdir_all dir s) [ none ↦ none | some s' ↦ some (dir, s') ]

abbrev pub path : (String → String → String) → String → String → String
path join dir id = join dir (id <> ".json")

module _ (F : Floats) (D : Files) (join : String → String → String) (encode : Run F → Option Bytes)
    (decode : Bytes → Option (Run F)) (dir : String) where
  abbrev pub write_encoded : String → Option Bytes → D.State → D.State × Bool
  write_encoded id none s = (s, false)
  write_encoded id (some text) s = attempted s (D.write_file (path join dir id) text s)

  -- `write`, which is all that `CreateRun` and `UpdateRun` do.
  unfoldable pub write_run : Run F → D.State → D.State × Bool
  write_run r s = write_encoded r.id (encode r) s

  abbrev pub decoded_run : Option Bytes → Option (Run F)
  decoded_run none = none
  decoded_run (some text) = decode text

  unfoldable pub get_run : String → D.State → Option (Run F)
  get_run id s = decoded_run (D.read_file (path join dir id) s)

  abbrev pub gathered : Option (Run F) → Option (List (Run F)) → Option (List (Run F))
  gathered none rest = none
  gathered (some r) none = none
  gathered (some r) (some rs) = some (r ∷ rs)

  abbrev pub entry_run : Option String → Option (List (Run F)) → D.State → Option (List (Run F))
  unfolding get_run
  entry_run none rest s = rest
  entry_run (some id) rest s = gathered (get_run id s) rest

  -- The loop over the entries, which ends at the first run that cannot be read.
  unfoldable pub read_entries : List DirEntry → D.State → Option (List (Run F))
  unfolding entry_run json_id
  read_entries [] s = some []
  read_entries (e ∷ es) s =
      let rest = read_entries es s in if e.is_dir then rest else entry_run (json_id e.name) rest s

  abbrev pub newer : Run F → Run F → Bool
  newer a b = ltb b.started_at a.started_at

  abbrev pub sorted_runs : Option (List (Run F)) → Option (List (Run F))
  sorted_runs none = none
  sorted_runs (some rs) = some (sort_slice newer rs)

  abbrev pub listed_runs : Option (List DirEntry) → D.State → Option (List (Run F))
  unfolding read_entries
  listed_runs none s = none
  listed_runs (some es) s = sorted_runs (read_entries es s)

  unfoldable pub list_runs : D.State → Option (List (Run F))
  unfolding listed_runs
  list_runs s = listed_runs (D.read_dir dir s) s

  -- The operations read no context.
  abbrev pub json_store : RunStore F
  json_store = record {
    State = D.State;
    create_run = λ done. write_run;
    update_run = λ done. write_run;
    get_run = λ done. get_run;
    list_runs = λ done. list_runs;
  }
