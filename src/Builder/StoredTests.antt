-- ===== src/Builder/StoredTests.antt =====
-- internal/harness/builder/builder.go: `Run` on small tables, without verification.
use harnesslab.Store.Sqlite.{sqlite_store, update_run, get_run, Fetched}
use harnesslab.Store.Sqlite.Kept.{Storable, kept_run, sqlite_store-Keeps}
use harnesslab.Store.Tests.{
  empty_run, tables, Tables, tables-IsDatabase, marshal, unmarshal, no_rows,
}
use harnesslab.Spec.Types.{VerificationSpec, SuccessSpec}
use harnesslab.Builder.{World, conclude, finish, verify_result}
use harnesslab.Builder.Stored.{run_stored, run_stored-Keeps}
use harnesslab.Builder.Interrupted.{run_stored-interrupted}
use harnesslab.Shared.Text.{bytes_beq}
use harnesslab.Shared.Float.{whole_floats}
use harnesslab.Shared.{
  Bool, true, false, ◌≡◌, refl, none, some, [], bytes, ◌==◌, string_eq, if◌then◌else◌,
}

abbrev world : Bool → World whole_floats
world was_cancelled = record {
  stored = true;
  events = some [];
  sandbox = λ k cmd. record { exit_code = 0; output = []; erred = false };
  diff = none;
  was_cancelled = was_cancelled;
  elapsed = 5;
  verify_elapsed = 0;
  finished = 9000501;
  cost = none;
}

abbrev unverified : VerificationSpec
unverified = record { strategy = "none"; commands = []; require_clean_git = false }

abbrev lenient : SuccessSpec
lenient = record { require_verification_pass = none; require_workspace_change = none }

abbrev started : Tables
unfolding update_run empty_run whole_floats
started =
    (update_run whole_floats marshal unmarshal tables false
      (record (empty_run "a") { task = "fix" }) no_rows).0

run_stored-Keeps_example :
    (sqlite_store whole_floats marshal unmarshal tables).get_run false "a"
      (run_stored whole_floats
        (sqlite_store whole_floats marshal unmarshal tables)
        false
        (world false)
        unverified
        lenient
        "fix"
        (empty_run "a")
        no_rows).1
    ≡ (if "a" == (empty_run "a").id
        then some (
            kept_run (
              conclude whole_floats
                (world false)
                unverified
                lenient
                []
                (record (empty_run "a") { task = "fix" })))
        else (sqlite_store whole_floats marshal unmarshal tables).get_run false "a" no_rows)
unfolding conclude started update_run verify_result finish empty_run whole_floats bytes_beq
run_stored-Keeps_example =
    run_stored-Keeps whole_floats (sqlite_store whole_floats marshal unmarshal tables) (world false)
      unverified lenient "fix" [] (empty_run "a") no_rows started refl refl kept_run
      (Storable whole_floats marshal unmarshal) (λ _. Unit {0})
      (sqlite_store-Keeps whole_floats marshal unmarshal tables tables-IsDatabase)
      (bytes "{}", refl, refl, refl) (bytes "{}", refl, refl, refl) tt refl refl "a" tt

run_stored-interrupted_example :
    get_run whole_floats marshal unmarshal tables false "a"
      (run_stored whole_floats
        (sqlite_store whole_floats marshal unmarshal tables)
        false
        (world true)
        unverified
        lenient
        "fix"
        (empty_run "a")
        no_rows).1
    ≡ Fetched.found (kept_run (record (empty_run "a") { task = "fix" }))
unfolding started update_run empty_run whole_floats bytes_beq
run_stored-interrupted_example =
    run_stored-interrupted whole_floats marshal unmarshal tables tables-IsDatabase (world true)
      unverified lenient "fix" [] (empty_run "a") no_rows started refl refl
      (bytes "{}", refl, refl, refl) refl
