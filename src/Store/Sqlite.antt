-- ===== src/Store/Sqlite.antt =====
-- internal/store/sqlitestore/sqlitestore.go: the runs as rows of a table. What the database answers to the
-- statements of the source is a parameter, and so is the coder of JSON. A time is 0 if it is
-- the zero time of Go, and else one more than its nanoseconds after 1970; the columns hold milliseconds.
pub mod Kept
pub mod Columns
pub mod Events
use harnesslab.Store.{Status, Metrics, VerificationResult, no_verification, Run}
use harnesslab.Store.Interface.{RunStore, attempted}
use harnesslab.Shared.Float.{Floats}
use harnesslab.Shared.Format.{decimal}
use harnesslab.Shared.{
  ℕ, zero, suc, ◌/◌, ◌*◌, String, Bool, true, false, not, Option, none, some, List, [], ◌∷◌, ◌++◌,
  Bytes, bytes, bytes_eq, nat_eq, string_eq, ◌==◌, ltb, any, if◌then◌else◌,
}

-- `unixMillis`
abbrev pub unix_millis : ℕ → ℕ
unix_millis zero = 0
unix_millis (suc n) = n / 1000000

-- The time of these milliseconds after 1970: time.UnixMilli.
abbrev pub from_millis : ℕ → ℕ
from_millis ms = suc (ms * 1000000)

abbrev pub bool_int : Bool → ℕ
bool_int b = if b then 1 else 0

-- A row of the table `events`.
pub record EventRow : Type 0 where
  pub id : Bytes
  pub run_id : Bytes
  pub parent_id : Bytes
  pub type : String
  pub ts : ℕ
  pub payload : Bytes

module _ (F : Floats) where
  open F use {Float}

  -- A row of the table `runs`.
  pub record Row : Type 0 where
    pub id : String
    pub task : String
    pub harness_version : String
    pub harness_name : String
    pub repository : String
    pub commit_sha : String
    pub workspace : String
    pub trace_path : String
    pub started_at : ℕ
    pub finished_at : ℕ
    pub status : Status
    pub success : ℕ
    pub input_tokens : ℕ
    pub output_tokens : ℕ
    pub tool_calls : ℕ
    pub model_calls : ℕ
    pub cost_usd : Float
    pub duration_ms : ℕ
    pub spec_yaml : String
    pub workspace_patch : Bytes
    pub verification_passed : ℕ
    pub workspace_changed : ℕ
    pub verification : Bytes
    pub environment : String

  -- What the database answers to the statements; the first argument says whether the context is done.
  -- `update_run` is the UPDATE of all columns where the id is that of the row, with the number of rows
  -- that it affects, if the driver knows it. `select_run` finds no row, or one.
  pub record Database : Type 1 where
    pub State : Type 0
    pub insert_run : Bool → Row → State → Option State
    pub update_run : Bool → Row → State → Option (State × Option ℕ)
    pub select_run : Bool → String → State → Option (Option Row)
    pub select_runs : Bool → State → Option (List Row)
    pub replace_event : Bool → EventRow → State → Option State
    pub columns : State → Option (List String)
    pub add_column : String → String → State → Option State

  pub data Fetched : Type 0 where
    not_found not_fetched : Fetched
    found : Run F → Fetched

  abbrev pub to_option : Fetched → Option (Run F)
  to_option Fetched.not_found = none
  to_option Fetched.not_fetched = none
  to_option (Fetched.found r) = some r

-- `marshal` is json.Marshal of a verification, and `unmarshal` what json.Unmarshal leaves in an empty one.
module _ (F : Floats) (marshal : VerificationResult → Option Bytes)
    (unmarshal : Bytes → VerificationResult) where
  abbrev pub verification_text : Option Bytes → Bytes
  verification_text none = []
  verification_text (some text) = text

  -- The arguments of the statements.
  unfoldable pub row_of : Run F → Row F
  row_of r = record {
    id = r.id;
    task = r.task;
    harness_version = r.harness_version;
    harness_name = r.harness_name;
    repository = r.repository;
    commit_sha = r.commit;
    workspace = r.workspace;
    trace_path = r.trace_path;
    started_at = unix_millis r.started_at;
    finished_at = unix_millis r.finished_at;
    status = r.status;
    success = bool_int r.metrics.success;
    input_tokens = r.metrics.input_tokens;
    output_tokens = r.metrics.output_tokens;
    tool_calls = r.metrics.tool_calls;
    model_calls = r.metrics.model_calls;
    cost_usd = r.metrics.cost_usd;
    duration_ms = r.metrics.duration_ms;
    spec_yaml = r.spec_yaml;
    workspace_patch = r.workspace_patch;
    verification_passed = bool_int r.metrics.verification_passed;
    workspace_changed = bool_int r.metrics.workspace_changed;
    verification = verification_text (marshal r.verification);
    environment = r.environment;
  }

  unfoldable pub scan_run : Row F → Run F
  scan_run w = record {
    id = w.id;
    task = w.task;
    harness_version = w.harness_version;
    harness_name = w.harness_name;
    repository = w.repository;
    commit = w.commit_sha;
    workspace = w.workspace;
    trace_path = w.trace_path;
    started_at = from_millis w.started_at;
    finished_at = if ltb 0 w.finished_at then from_millis w.finished_at else 0;
    status = w.status;
    metrics = record {
      success = not (w.success == 0);
      input_tokens = w.input_tokens;
      output_tokens = w.output_tokens;
      tool_calls = w.tool_calls;
      model_calls = w.model_calls;
      cost_usd = w.cost_usd;
      duration_ms = w.duration_ms;
      verification_passed = not (w.verification_passed == 0);
      workspace_changed = not (w.workspace_changed == 0);
    };
    spec_yaml = w.spec_yaml;
    workspace_patch = w.workspace_patch;
    verification = if w.verification == [] then no_verification else unmarshal w.verification;
    environment = w.environment;
  }

  module _ (D : Database F) where
    unfoldable pub create_run : Bool → Run F → D.State → D.State × Bool
    unfolding row_of
    create_run done r s = attempted s (D.insert_run done (row_of r) s)

    -- A run that no row has yet is created.
    abbrev pub updated : Bool → Run F → D.State → Option (D.State × Option ℕ) → D.State × Bool
    unfolding create_run
    updated done r s none = (s, false)
    updated done r s (some (s', none)) = (s', false)
    updated done r s (some (s', some zero)) = create_run done r s'
    updated done r s (some (s', some (suc n))) = (s', true)

    unfoldable pub update_run : Bool → Run F → D.State → D.State × Bool
    unfolding updated row_of
    update_run done r s = updated done r s (D.update_run done (row_of r) s)

    abbrev pub fetched : Option (Option (Row F)) → Fetched F
    unfolding scan_run
    fetched none = Fetched.not_fetched
    fetched (some none) = Fetched.not_found
    fetched (some (some w)) = Fetched.found (scan_run w)

    unfoldable pub get_run : Bool → String → D.State → Fetched F
    unfolding scan_run
    get_run done id s = fetched (D.select_run done id s)

    unfoldable pub scan_runs : List (Row F) → List (Run F)
    unfolding scan_run
    scan_runs [] = []
    scan_runs (w ∷ ws) = scan_run w ∷ scan_runs ws

    unfoldable pub list_runs : Bool → D.State → Option (List (Run F))
    unfolding scan_runs
    list_runs done s = elim (D.select_runs done s) [ none ↦ none | some ws ↦ some (scan_runs ws) ]

    abbrev pub sqlite_store : RunStore F
    sqlite_store = record {
      State = D.State;
      create_run = create_run;
      update_run = update_run;
      get_run = λ done id s. to_option F (get_run done id s);
      list_runs = list_runs;
    }

-- The columns that older databases lack, with their types.
abbrev pub migrations : List (String × String)
migrations =
    ("spec_yaml", "TEXT NOT NULL DEFAULT ''")
    ∷ ("workspace_patch", "TEXT NOT NULL DEFAULT ''")
    ∷ ("verification_passed", "INTEGER NOT NULL DEFAULT 0")
    ∷ ("workspace_changed", "INTEGER NOT NULL DEFAULT 0")
    ∷ ("verification", "TEXT NOT NULL DEFAULT ''")
    ∷ ("environment", "TEXT NOT NULL DEFAULT ''")
    ∷ []

module _ (F : Floats) (D : Database F) where
  -- The id of an event is its run and its time in nanoseconds.
  unfoldable pub event_row : Bytes → Bytes → String → ℕ → Bytes → EventRow
  unfolding decimal
  event_row run_id parent_id type nanos payload = record {
    id = run_id ++ (bytes "-" ++ decimal nanos);
    run_id = run_id;
    parent_id = parent_id;
    type = type;
    ts = nanos / 1000000;
    payload = payload;
  }

  unfoldable pub append_event : Bool → Bytes → Bytes → String → ℕ → Bytes → D.State → D.State × Bool
  unfolding event_row
  append_event done run_id parent_id type nanos payload s =
      attempted s (D.replace_event done (event_row run_id parent_id type nanos payload) s)

  abbrev pub column_then : Option D.State → (D.State → Option D.State) → Option D.State
  column_then none k = none
  column_then (some s) k = k s

  -- The loop over the columns; `cols` are those that the table had before it.
  unfoldable pub add_columns : List String → List (String × String) → D.State → Option D.State
  add_columns cols [] s = some s
  add_columns cols ((name, typ) ∷ rest) s =
      let next = λ (s' : D.State). add_columns cols rest s' in
      if any (λ c. c == name) cols then next s else column_then (D.add_column name typ s) next

  abbrev pub migrate_from : Option (List String) → D.State → Option D.State
  unfolding add_columns
  migrate_from none s = none
  migrate_from (some cols) s = add_columns cols migrations s

  unfoldable pub migrate : D.State → Option D.State
  unfolding migrate_from
  migrate s = migrate_from (D.columns s) s
