-- ===== src/Builder/Interrupted.antt =====
-- internal/harness/builder/builder.go: `Run` on the SQLite store, whose context is done when the run ends.
use harnesslab.Store.{Run, VerificationResult}
use harnesslab.Store.Sqlite.{Database, Fetched, to_option, sqlite_store, update_run, get_run}
use harnesslab.Store.Sqlite.Kept.{
  IsDatabase, Storable, kept_run, sqlite_store-Keeps, update_run-done,
}
use harnesslab.Spec.Types.{VerificationSpec, SuccessSpec}
use harnesslab.Builder.{World}
use harnesslab.Builder.Stored.{run_stored, run_stored-refused}
use harnesslab.Runtime.{RunEvent}
use harnesslab.Shared.Float.{Floats}
use harnesslab.Shared.{String, true, false, ◌≡◌, Option, some, List, Bytes}

found_of : (F : Floats) {o : Fetched F} {r : Run F} → to_option F o ≡ some r → o ≡ Fetched.found r
found_of F {o = Fetched.not_found} h = cc h
found_of F {o = Fetched.not_fetched} h = cc h
found_of F {o = Fetched.found q} h = cc h

-- On a database that runs no statement once the context is done, a run that was started and then cancelled
-- stays recorded as it was when it started, with the status that it had then, whatever its events were; its times are cut to the
-- millisecond, and a zero start is read as 1970.
pub run_stored-interrupted :
    (F : Floats) (marshal : VerificationResult → Option Bytes)
    (unmarshal : Bytes → VerificationResult) (D : Database F)
    → IsDatabase F D
    → (w : World F) (v : VerificationSpec) (success : SuccessSpec) (task : String)
      (evs : List RunEvent) (r : Run F) (s s' : D.State)
    → w.events ≡ some evs
    → update_run F marshal unmarshal D false (record r { task = task }) s ≡ (s', true)
    → Storable F marshal unmarshal (record r { task = task })
    → w.was_cancelled ≡ true
    → get_run F marshal unmarshal D false r.id
        (run_stored F (sqlite_store F marshal unmarshal D) false w v success task r s).1
      ≡ Fetched.found (kept_run (record r { task = task }))
run_stored-interrupted F marshal unmarshal D db w v success task evs r s s' started stored st dead =
    found_of F (
      run_stored-refused F (sqlite_store F marshal unmarshal D) w v success task evs r s s' started
        stored kept_run (Storable F marshal unmarshal) (λ _. Unit {0})
        (sqlite_store-Keeps F marshal unmarshal D db) st tt
        (update_run-done F marshal unmarshal D db) dead)
