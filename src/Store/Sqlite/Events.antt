-- ===== src/Store/Sqlite/Events.antt =====
-- internal/store/sqlitestore/sqlitestore.go: `AppendEvent` for events of one run at one time.
use harnesslab.Store.Sqlite.{EventRow, Database, event_row, append_event}
use harnesslab.Store.Interface.{attempted}
use harnesslab.Shared.Float.{Floats}
use harnesslab.Shared.{
  ℕ, String, Bool, true, false, ◌&&◌, ◌≡◌, refl, sym, ap, ◌∙◌, Option, none, some, Bytes, bytes_eq,
  ◌==◌, if◌then◌else◌, if-if,
}

module _ (F : Floats) (D : Database F) where
  -- What stands in the table `events` under a run and an id.
  abbrev pub Lookup : Type 0
  Lookup = Bytes → Bytes → D.State → Option EventRow

  abbrev pub is_key : Bytes → Bytes → EventRow → Bool
  is_key run id e = run == e.run_id && id == e.id

  -- INSERT OR REPLACE puts the row in the place of the one with its primary key.
  pub record IsReplacing (event_at : Lookup) : Type 0 where
    pub event_at-replace :
        (e : EventRow) (s s' : D.State) (run id : Bytes)
        → D.replace_event false e s ≡ some s'
        → event_at run id s' ≡ (if is_key run id e then some e else event_at run id s)

  module _ (event_at : Lookup) (replacing : IsReplacing event_at) where
    event_at-attempted :
        (e : EventRow) (s : D.State) (run id : Bytes) (o : Option D.State)
        → D.replace_event false e s ≡ o
        → (attempted s o).1 ≡ true
        → event_at run id (attempted s o).0
          ≡ (if is_key run id e then some e else event_at run id s)
    event_at-attempted e s run id none w ok = absurd (cc ok)
    event_at-attempted e s run id (some s') w ok = replacing.event_at-replace e s s' run id w

    event_at-append :
        (s s' : D.State) (run id : Bytes) (e : EventRow)
        → attempted s (D.replace_event false e s) ≡ (s', true)
        → event_at run id s' ≡ (if is_key run id e then some e else event_at run id s)
    event_at-append s s' run id e w =
        ap (event_at run id) (sym (ap (λ x. x.0) w))
        ∙ event_at-attempted e s run id (D.replace_event false e s) refl (ap (λ x. x.1) w)

    -- If two events of a run have the same time in nanoseconds, then after both were stored without an error
    -- the table has the second one only: whatever is looked up is as if the first had not been stored.
    pub append_event-overwritten :
        (run_id parent parent' : Bytes) (type type' : String) (nanos : ℕ) (payload payload' : Bytes)
        (s s' t : D.State) (run id : Bytes)
        → append_event F D false run_id parent type nanos payload s ≡ (s', true)
        → append_event F D false run_id parent' type' nanos payload' s' ≡ (t, true)
        → event_at run id t ≡ (
            if is_key run id (event_row F D run_id parent' type' nanos payload')
            then some (event_row F D run_id parent' type' nanos payload')
            else event_at run id s)
    unfolding append_event
    append_event-overwritten run_id parent parent' type type' nanos payload payload' s s' t run id w
          w' =
        let e = event_row F D run_id parent type nanos payload in
        let e' = event_row F D run_id parent' type' nanos payload' in
        let hit = is_key run id e' in
        event_at-append s' t run id e' w'
        ∙ ap (λ o. if hit then some e' else o) (event_at-append s s' run id e w)
        ∙ if-if hit (some e') (some e) (event_at run id s)
