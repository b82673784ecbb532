-- ===== src/Builder/Stored.antt =====
-- internal/harness/builder/builder.go: `Run` on a store, which it writes before the run and after it.
use harnesslab.Store.{Run}
use harnesslab.Store.Interface.{RunStore, Keeps}
use harnesslab.Spec.Types.{VerificationSpec, SuccessSpec}
use harnesslab.Builder.{World, Ending, run, conclude, finish}
use harnesslab.Runtime.{RunEvent}
use harnesslab.Shared.Float.{Floats}
use harnesslab.Shared.{
  String, Bool, true, false, ◌≡◌, refl, sym, ap, ◌∙◌, some, List, ◌==◌, string_eq, if◌then◌else◌,
  if-if,
}

module _ (F : Floats) (S : RunStore F) where
  -- The last write, whose error is only logged.
  abbrev pub persist : Bool → Ending F → S.State → Ending F × S.State
  persist done Ending.not_stored s = (Ending.not_stored, s)
  persist done (Ending.not_started r) s = (Ending.not_started r, (S.update_run done r s).0)
  persist done (Ending.finished r) s = (Ending.finished r, (S.update_run done r s).0)

  -- `done` says whether the context is done when the run starts; a run that was cancelled persists its
  -- record with the context that is done.
  unfoldable pub run_stored :
      Bool
      → World F
      → VerificationSpec
      → SuccessSpec
      → String
      → Run F
      → S.State
      → Ending F × S.State
  unfolding run
  run_stored done w v success task r s =
      let (s', stored) = S.update_run done (record r { task = task }) s in
      persist w.was_cancelled (run F (record w { stored = stored }) v success task r) s'

  module _ (w : World F) (v : VerificationSpec) (success : SuccessSpec) (task : String)
      (evs : List RunEvent) (r : Run F) (s s' : S.State) (started : w.events ≡ some evs)
      (stored : S.update_run false (record r { task = task }) s ≡ (s', true)) where
    abbrev pub last_record : Run F
    unfolding conclude
    last_record = conclude F w v success evs (record r { task = task })

    pub run_stored-finished :
        run_stored false w v success task r s
        ≡ (Ending.finished last_record, (S.update_run w.was_cancelled last_record s').0)
    unfolding run_stored
    run_stored-finished = rw (stored, started) refl

    -- In a store that keeps what is written, the run that is read after an uncancelled run whose last write
    -- has no error is the final record as the store keeps it, and the runs of other ids are as before.
    pub run_stored-Keeps :
        (kept : Run F → Run F) (Storable : Run F → Type 0) (IsKey : String → Type 0)
        → Keeps F S kept Storable IsKey
        → Storable (record r { task = task })
        → Storable last_record
        → IsKey r.id
        → w.was_cancelled ≡ false
        → (S.update_run false last_record s').1 ≡ true
        → (k : String) → IsKey k
        → S.get_run false k (run_stored false w v success task r s).1
          ≡ (if k == r.id then some (kept last_record) else S.get_run false k s)
    unfolding conclude finish
    run_stored-Keeps kept Storable IsKey keeps st st' kr live ok k kk =
        let task_set : Run F = record r { task = task } in
        let b = k == r.id in
        let old = S.get_run false k s in
        let wrote = S.update_run false task_set s in
        ap (λ x. S.get_run false k x.1) run_stored-finished
        ∙ ap (λ c. S.get_run false k (S.update_run c last_record s').0) live
        ∙ keeps.get-update last_record s' k st' kr kk ok
        ∙ ap (λ o. if b then some (kept last_record) else o)
            (ap (λ x. S.get_run false k x.0) (sym stored)
              ∙ keeps.get-update task_set s k st kr kk (ap (λ x. x.1) stored))
        ∙ if-if b (some (kept last_record)) (some (kept task_set)) old

    -- If a store refuses every update once the context is done, a run that was cancelled stays in it as it
    -- was when it started, with its task, as the store keeps it.
    pub run_stored-refused :
        (kept : Run F → Run F) (Storable : Run F → Type 0) (IsKey : String → Type 0)
        → Keeps F S kept Storable IsKey
        → Storable (record r { task = task })
        → IsKey r.id
        → ((q : Run F) (t : S.State) → S.update_run true q t ≡ (t, false))
        → w.was_cancelled ≡ true
        → S.get_run false r.id (run_stored false w v success task r s).1
          ≡ some (kept (record r { task = task }))
    run_stored-refused kept Storable IsKey keeps st kr refuses dead =
        let task_set : Run F = record r { task = task } in
        ap (λ x. S.get_run false r.id x.1) run_stored-finished
        ∙ ap (λ c. S.get_run false r.id (S.update_run c last_record s').0) dead
        ∙ ap (λ x. S.get_run false r.id x.0)
            (refuses last_record s' ∙ ap (λ x. (x.0, false)) (sym stored))
        ∙ keeps.get-update task_set s r.id st kr kr (ap (λ x. x.1) stored)
        ∙ ap (λ b. if b then some (kept task_set) else S.get_run false r.id s)
            ((string_eq.decides r.id r.id).1 refl)
