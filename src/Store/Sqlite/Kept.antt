-- ===== src/Store/Sqlite/Kept.antt =====
-- internal/store/sqlitestore/sqlitestore.go: the row of a run is read back.
use harnesslab.Store.{Run, VerificationResult}
use harnesslab.Store.Interface.{Keeps, attempted}
use harnesslab.Store.Sqlite.{
  bool_int, Row, Database, row_of, scan_run, create_run, updated, update_run, fetched, get_run,
  to_option, sqlite_store, unix_millis, from_millis,
}
use harnesslab.Shared.Float.{Floats}
use harnesslab.Shared.{
  ℕ, zero, suc, ◌-◌, ◌%◌, String, Bool, true, false, not, ◌≡◌, refl, ap, ◌∙◌, Option, none, some,
  [], Bytes, ◌==◌, string_eq, nat_eq, bytes_eq, ltb, if◌then◌else◌, arith,
}

module _ (F : Floats) (D : Database F) where
  -- The documented behaviour of the statements. An INSERT that succeeds adds the row; an UPDATE that affects
  -- a row replaces it, and one that affects none changes nothing. No statement runs once the context is
  -- done.
  pub record IsDatabase : Type 0 where
    pub select-insert :
        (w : Row F) (s s' : D.State) (k : String)
        → D.insert_run false w s ≡ some s'
        → D.select_run false k s' ≡ (if k == w.id then some (some w) else D.select_run false k s)
    pub select-update :
        (w : Row F) (s s' : D.State) (n : ℕ) (k : String)
        → D.update_run false w s ≡ some (s', some (suc n))
        → D.select_run false k s' ≡ (if k == w.id then some (some w) else D.select_run false k s)
    pub select-no_update :
        (w : Row F) (s s' : D.State) (k : String)
        → D.update_run false w s ≡ some (s', some zero)
        → D.select_run false k s' ≡ D.select_run false k s
    pub insert-done : (w : Row F) (s : D.State) → D.insert_run true w s ≡ none
    pub update-done : (w : Row F) (s : D.State) → D.update_run true w s ≡ none

flag-int : (b : Bool) → not (bool_int b == 0) ≡ b
flag-int true = refl
flag-int false = refl

-- The time that is read back for a start: cut to the millisecond, and 1970 for the zero time.
abbrev pub kept_start : ℕ → ℕ
kept_start zero = 1
kept_start (suc n) = suc (n - n % 1000000)

-- The time that is read back for an end: the same, but no time in the first millisecond of 1970.
abbrev pub kept_end : ℕ → ℕ
kept_end zero = 0
kept_end (suc n) = if ltb n 1000000 then 0 else kept_start (suc n)

from-unix_millis : (t : ℕ) → from_millis (unix_millis t) ≡ kept_start t
from-unix_millis zero = refl
from-unix_millis (suc n) = omega arith

positive-unix_millis :
    (t : ℕ) → (if ltb 0 (unix_millis t) then from_millis (unix_millis t) else 0) ≡ kept_end t
positive-unix_millis zero = refl
positive-unix_millis (suc n) = ground arith

-- The run as it is read back.
abbrev pub kept_run : {F : Floats} → Run F → Run F
kept_run r = record r { started_at = kept_start r.started_at; finished_at = kept_end r.finished_at }

module _ (F : Floats) (marshal : VerificationResult → Option Bytes)
    (unmarshal : Bytes → VerificationResult) where
  -- The coder keeps the verification.
  abbrev pub Storable : Run F → Type 0
  Storable r =
      (text : Bytes) × (marshal r.verification ≡ some text)
      × ((text == []) ≡ false)
      × (unmarshal text ≡ r.verification)

  scan_run-row_of :
      (r : Run F)
      → Storable r
      → scan_run F marshal unmarshal (row_of F marshal unmarshal r) ≡ kept_run r
  unfolding scan_run row_of
  scan_run-row_of r (text, e, n, d) =
      rw
        (
          e,
          n,
          d,
          flag-int r.metrics.success,
          flag-int r.metrics.verification_passed,
          flag-int r.metrics.workspace_changed,
          from-unix_millis r.started_at,
          positive-unix_millis r.finished_at,
        )
        refl

  module _ (D : Database F) (db : IsDatabase F D) where
    fetched-if :
        (r : Run F)
        → Storable r
        → (b : Bool) (o : Option (Option (Row F)))
        → to_option F (
            fetched F marshal unmarshal D
              (if b then some (some (row_of F marshal unmarshal r)) else o))
          ≡ (if b then some (kept_run r) else to_option F (fetched F marshal unmarshal D o))
    unfolding fetched
    fetched-if r st true o = ap some (scan_run-row_of r st)
    fetched-if r st false o = refl

    -- The row of `r` is found where it was put, and the rows of other ids are as before.
    abbrev Written : Run F → D.State → D.State → String → Type 0
    Written r s s' k =
        D.select_run false k s'
        ≡ (if k == r.id then some (some (row_of F marshal unmarshal r)) else D.select_run false k s)

    attempted-Written :
        (r : Run F) (s t : D.State) (k : String) (o : Option D.State)
        → D.insert_run false (row_of F marshal unmarshal r) s ≡ o
        → D.select_run false k s ≡ D.select_run false k t
        → (attempted s o).1 ≡ true
        → Written r t (attempted s o).0 k
    unfolding row_of
    attempted-Written r s t k none e same ok = absurd (cc ok)
    attempted-Written r s t k (some s') e same ok =
        db.select-insert (row_of F marshal unmarshal r) s s' k e
        ∙ ap (λ o. if k == r.id then some (some (row_of F marshal unmarshal r)) else o) same

    updated-Written :
        (r : Run F) (s : D.State) (k : String) (o : Option (D.State × Option ℕ))
        → D.update_run false (row_of F marshal unmarshal r) s ≡ o
        → (updated F marshal unmarshal D false r s o).1 ≡ true
        → Written r s (updated F marshal unmarshal D false r s o).0 k
    unfolding row_of updated create_run
    updated-Written r s k none e ok = absurd (cc ok)
    updated-Written r s k (some (s', none)) e ok = absurd (cc ok)
    updated-Written r s k (some (s', some zero)) e ok =
        attempted-Written r s' s k (D.insert_run false (row_of F marshal unmarshal r) s') refl
          (db.select-no_update (row_of F marshal unmarshal r) s s' k e) ok
    updated-Written r s k (some (s', some (suc n))) e ok =
        db.select-update (row_of F marshal unmarshal r) s s' n k e

    -- A database that does what the statements say keeps every run whose verification the coder keeps, but
    -- for its times: the run that is read under an id is the last one that was written for it, with its
    -- start and its end cut to the millisecond, a zero start read as 1970 and an end that is zero or in the
    -- first millisecond of 1970 as none; and a write leaves the runs of other ids alone.
    pub sqlite_store-Keeps :
        Keeps F (sqlite_store F marshal unmarshal D) kept_run Storable (λ _. Unit {0})
    unfolding create_run update_run get_run
    sqlite_store-Keeps = record {
      get-create = λ r s k st _ _ ok.
          ap (λ o. to_option F (fetched F marshal unmarshal D o))
            (attempted-Written r s s k (D.insert_run false (row_of F marshal unmarshal r) s) refl
              refl ok)
          ∙ fetched-if r st (k == r.id) (D.select_run false k s);
      get-update = λ r s k st _ _ ok.
          ap (λ o. to_option F (fetched F marshal unmarshal D o))
            (updated-Written r s k (D.update_run false (row_of F marshal unmarshal r) s) refl ok)
          ∙ fetched-if r st (k == r.id) (D.select_run false k s);
    }

    -- Nothing is updated once the context is done.
    pub update_run-done :
        (r : Run F) (s : D.State) → update_run F marshal unmarshal D true r s ≡ (s, false)
    unfolding update_run row_of
    update_run-done r s =
        ap (updated F marshal unmarshal D true r s)
          (db.update-done (row_of F marshal unmarshal r) s)
