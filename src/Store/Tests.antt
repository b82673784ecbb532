-- ===== src/Store/Tests.antt =====
-- internal/store/jsonstore and internal/store/sqlitestore: the stores on small files and tables. A run is
-- encoded by nothing but its task and its status here, so that only runs without more are kept.
use harnesslab.Store.{Run, Status, no_metrics, no_verification, VerificationResult}
use harnesslab.Store.Interface.{Keeps}
use harnesslab.Store.Json.{Files, json_store, json_id}
use harnesslab.Store.Json.Kept.{IsFiles, IsApart, IsEncoded, json_store-Keeps}
use harnesslab.Store.Sqlite.{Row, EventRow, Database, sqlite_store, update_run, append_event}
use harnesslab.Store.Sqlite.Kept.{IsDatabase, Storable, kept_run, sqlite_store-Keeps}
use harnesslab.Store.Sqlite.Events.{IsReplacing}
use harnesslab.Shared.Float.{whole_floats}
use harnesslab.Shared.{
  ℕ, zero, suc, String, Bool, true, false, ◌&&◌, ◌≡◌, refl, sym, ap, ◌∙◌, arith, Option, none, some,
  [], Bytes, bytes, bytes_eq, ◌==◌, string_eq, if◌then◌else◌,
}

unfoldable pub empty_run : String → Run whole_floats
unfolding whole_floats
empty_run id = record {
  id = id;
  task = "";
  harness_version = "";
  harness_name = "";
  repository = "";
  commit = "";
  workspace = "";
  trace_path = "";
  started_at = 7000001;
  finished_at = 0;
  status = Status.running;
  metrics = no_metrics whole_floats;
  spec_yaml = "";
  workspace_patch = [];
  verification = no_verification;
  environment = "";
}

-- A directory as a function from paths to contents.
abbrev directory : Files
directory = record {
  State = String → Option Bytes;
  read_file = λ p s. s p;
  write_file = λ p text s. some (λ q. if q == p then some text else s q);
  read_dir = λ p s. none;
  mkdir_all = λ p s. some s;
}

some_eq : {A : Type 0} {a b : A} → some a ≡ some b → a ≡ b
some_eq h = cc h

directory-IsFiles : IsFiles directory
directory-IsFiles = record { read-write = λ p q text s s' h. ap (λ t. t q) (sym (some_eq h)) }

abbrev slash : String → String → String
slash dir name = name

abbrev encode : Run whole_floats → Option Bytes
encode r = some (bytes "{}")

abbrev decode : Bytes → Option (Run whole_floats)
decode text = some (empty_run "a")

abbrev IsA : String → Type 0
IsA id = id ≡ "a"

IsA-IsApart : IsApart slash "d" IsA
IsA-IsApart = λ a b p q e. cc (p, q)

json_store-Keeps_example :
    Keeps whole_floats
      (json_store whole_floats directory slash encode decode "d")
      (λ r. r)
      (IsEncoded whole_floats directory slash encode decode "d")
      IsA
json_store-Keeps_example =
    json_store-Keeps whole_floats directory slash encode decode "d" directory-IsFiles IsA
      IsA-IsApart

trimmed : json_id "run-1.json" ≡ some "run-1"
unfolding json_id
trimmed = refl

pub record Tables : Type 0 where
  pub runs : String → Option (Row whole_floats)
  pub events : Bytes → Bytes → Option EventRow

abbrev has_row : Option (Row whole_floats) → Bool
has_row none = false
has_row (some w) = true

abbrev with_row : Row whole_floats → Tables → Tables
with_row w t = record t { runs = λ k. if k == w.id then some w else t.runs k }

abbrev insert_unless : Bool → Row whole_floats → Tables → Option Tables
insert_unless true w t = none
insert_unless false w t = some (with_row w t)

abbrev update_if : Bool → Row whole_floats → Tables → Tables × Option ℕ
update_if true w t = (with_row w t, some (suc zero))
update_if false w t = (t, some zero)

abbrev unless_done : {A : Type 0} → Bool → A → Option A
unless_done true a = none
unless_done false a = some a

-- A database whose tables are functions from keys to rows.
abbrev pub tables : Database whole_floats
tables = record {
  State = Tables;
  insert_run = λ done w t. insert_unless (if done then true else has_row (t.runs w.id)) w t;
  update_run = λ done w t. unless_done done (update_if (has_row (t.runs w.id)) w t);
  select_run = λ done k t. unless_done done (t.runs k);
  select_runs = λ done t. none;
  replace_event = λ done e t. unless_done done (record t {
    events = λ run id. if (run == e.run_id && id == e.id) then some e else t.events run id;
  });
  columns = λ t. some [];
  add_column = λ name typ t. some t;
}

insert_unless-runs :
    (b : Bool) (w : Row whole_floats) (s s' : Tables) (k : String)
    → insert_unless b w s ≡ some s'
    → s'.runs k ≡ (if k == w.id then some w else s.runs k)
insert_unless-runs true w s s' k h = absurd (cc h)
insert_unless-runs false w s s' k h = ap (λ (t : Tables). t.runs k) (sym (some_eq h))

update_if-some :
    (b : Bool) (w : Row whole_floats) (s s' : Tables) (n : ℕ) (k : String)
    → update_if b w s ≡ (s', some (suc n))
    → s'.runs k ≡ (if k == w.id then some w else s.runs k)
update_if-some true w s s' n k h = ap (λ (x : Tables × Option ℕ). x.0.runs k) (sym h)
update_if-some false w s s' n k h = absurd (ground (arith, ap (λ (x : Tables × Option ℕ). x.1) h))

update_if-none :
    (b : Bool) (w : Row whole_floats) (s s' : Tables) (k : String)
    → update_if b w s ≡ (s', some zero)
    → s'.runs k ≡ s.runs k
update_if-none true w s s' k h = absurd (ground (arith, ap (λ (x : Tables × Option ℕ). x.1) h))
update_if-none false w s s' k h = ap (λ (x : Tables × Option ℕ). x.0.runs k) (sym h)

some_if :
    {A : Type 0} (b : Bool) (x y : A) → some (if b then x else y) ≡ (if b then some x else some y)
some_if true x y = refl
some_if false x y = refl

pub tables-IsDatabase : IsDatabase whole_floats tables
tables-IsDatabase = record {
  select-insert = λ w s s' k h.
      ap some (insert_unless-runs (has_row (s.runs w.id)) w s s' k h)
      ∙ some_if (k == w.id) (some w) (s.runs k);
  select-update = λ w s s' n k h.
      ap some (update_if-some (has_row (s.runs w.id)) w s s' n k (some_eq h))
      ∙ some_if (k == w.id) (some w) (s.runs k);
  select-no_update =
      λ w s s' k h. ap some (update_if-none (has_row (s.runs w.id)) w s s' k (some_eq h));
  insert-done = λ w s. refl;
  update-done = λ w s. refl;
}

abbrev pub marshal : VerificationResult → Option Bytes
marshal v = some (bytes "{}")

abbrev pub unmarshal : Bytes → VerificationResult
unmarshal text = no_verification

sqlite_store-Keeps_example :
    Keeps whole_floats
      (sqlite_store whole_floats marshal unmarshal tables)
      kept_run
      (Storable whole_floats marshal unmarshal)
      (λ _. Unit {0})
sqlite_store-Keeps_example =
    sqlite_store-Keeps whole_floats marshal unmarshal tables tables-IsDatabase

abbrev pub no_rows : Tables
no_rows = record { runs = λ k. none; events = λ run id. none }

-- A run that no row has yet is created.
stored_twice :
    (let s = (update_run whole_floats marshal unmarshal tables false (empty_run "a") no_rows).0 in
      update_run whole_floats marshal unmarshal tables false (empty_run "a") s).1
    ≡ true
unfolding update_run empty_run whole_floats
stored_twice = refl

tables-IsReplacing : IsReplacing whole_floats tables (λ run id t. t.events run id)
tables-IsReplacing = record {
  event_at-replace = λ e s s' run id h. ap (λ (t : Tables). t.events run id) (sym (some_eq h));
}

abbrev put_event : String → Tables → Tables
unfolding append_event
put_event text t =
    (append_event whole_floats tables false (bytes "r") [] "tool_start" 5 (bytes text) t).0
