-- ===== src/Store/Interface.antt =====
-- internal/store/store.go: the interface `Store`, and what its callers rely on.
use harnesslab.Store.{Run}
use harnesslab.Shared.Float.{Floats}
use harnesslab.Shared.{
  String, Bool, true, false, ◌≡◌, Option, none, some, List, ◌==◌, string_eq, if◌then◌else◌,
}

-- A write that fails leaves the state as it was.
abbrev pub attempted : {S : Type 0} → S → Option S → S × Bool
attempted s none = (s, false)
attempted s (some s') = (s', true)

module _ (F : Floats) where
  -- The first argument of each operation says whether the context is done. A write returns the new state
  -- and whether there was no error; a read returns nothing if there was one.
  pub record RunStore : Type 1 where
    pub State : Type 0
    pub create_run : Bool → Run F → State → State × Bool
    pub update_run : Bool → Run F → State → State × Bool
    pub get_run : Bool → String → State → Option (Run F)
    pub list_runs : Bool → State → Option (List (Run F))

  -- A write that reports no error is read back, as `kept` says, and leaves the other runs alone. `Storable`
  -- are the runs that the encodings of the store keep, `IsKey` the ids that it tells apart.
  pub record Keeps (S : RunStore) (kept : Run F → Run F) (Storable : Run F → Type 0)
      (IsKey : String → Type 0) : Type 0 where
    pub get-create :
        (r : Run F) (s : S.State) (k : String)
        → Storable r
        → IsKey r.id
        → IsKey k
        → (S.create_run false r s).1 ≡ true
        → S.get_run false k (S.create_run false r s).0
          ≡ (if k == r.id then some (kept r) else S.get_run false k s)
    pub get-update :
        (r : Run F) (s : S.State) (k : String)
        → Storable r
        → IsKey r.id
        → IsKey k
        → (S.update_run false r s).1 ≡ true
        → S.get_run false k (S.update_run false r s).0
          ≡ (if k == r.id then some (kept r) else S.get_run false k s)
