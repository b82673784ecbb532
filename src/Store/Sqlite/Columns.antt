-- ===== src/Store/Sqlite/Columns.antt =====
-- internal/store/sqlitestore/sqlitestore.go: the columns of the table `runs` after `migrate`.
use harnesslab.Store.Sqlite.{Database, migrations, add_columns, migrate_from, migrate}
use harnesslab.Shared.Float.{Floats}
use mathlib.Core.Path.{subst}
use harnesslab.Shared.{
  String, ◌≡◌, refl, Option, none, some, List, [], ◌∷◌, ◌==◌, string_eq, any, All, In, find,
  Bool-cases, Option-cases, inl, inr,
}

module _ (F : Floats) (D : Database F) where
  abbrev pub HasColumn : D.State → String → Type 0
  HasColumn s name = (cols : List String) × (D.columns s ≡ some cols) × In name cols

  -- ALTER TABLE ADD COLUMN adds the column, and keeps the others.
  pub record IsAltered : Type 0 where
    pub add_new :
        (name typ : String) (s s' : D.State) → D.add_column name typ s ≡ some s' → HasColumn s' name
    pub add_old :
        (name typ other : String) (s s' : D.State)
        → D.add_column name typ s ≡ some s'
        → HasColumn s other
        → HasColumn s' other

  abbrev Extends : D.State → D.State → Type 0
  Extends s s' = (name : String) → HasColumn s name → HasColumn s' name

  module _ (altered : IsAltered) (cols : List String) where
    -- What the rest of the loop does after one column.
    after_column :
        (name : String) (ms : List (String × String)) (s t s' : D.State)
        → Extends s t
        → HasColumn t name
        → All (λ m. HasColumn s' m.0) ms × Extends t s'
        → HasColumn s' name × All (λ m. HasColumn s' m.0) ms × Extends s s'
    after_column name ms s t s' ext here_ (all, ext') =
        (ext' name here_, all, λ n h. ext' n (ext n h))

    add_columns-HasColumn :
        (ms : List (String × String)) (s s' : D.State)
        → ((name : String) → In name cols → HasColumn s name)
        → add_columns F D cols ms s ≡ some s'
        → All (λ m. HasColumn s' m.0) ms × Extends s s'
    unfolding add_columns
    add_columns-HasColumn [] s s' old =
        λ e. let same : s ≡ s' = cc e in (tt, subst (Extends s) same (λ n h. h))
    add_columns-HasColumn ((name, typ) ∷ ms) s s' old =
        elim (Bool-cases (any (λ c. c == name) cols)) [
          | inl hit ↦ rw hit (λ e.
              let (c, same, i) = find (λ c. c == name) cols hit in
              let there_ =
                old name (subst (λ n. In n cols) ((string_eq.decides c name).0 same) i) in
              let (h, all, ext) =
                after_column name ms s s s' (λ n k. k) there_
                  (add_columns-HasColumn ms s s' old e) in
              ((h, all), ext))
          | inr miss ↦ rw miss (elim (Option-cases (D.add_column name typ s)) [
            | inl failed ↦ rw failed (λ e. absurd (cc e))
            | inr (t, added) ↦ rw added (λ e.
                let ext : Extends s t = λ n k. altered.add_old name typ n s t added k in
                let (h, all, ext') =
                  after_column name ms s t s' ext (altered.add_new name typ s t added)
                    (add_columns-HasColumn ms t s' (λ n i. ext n (old n i)) e) in
                ((h, all), ext'))
          ])
        ]

  migrate_from-HasColumn :
      IsAltered
      → (s s' : D.State) (o : Option (List String)) → D.columns s ≡ o
      → migrate_from F D o s ≡ some s'
      → All (λ m. HasColumn s' m.0) migrations × Extends s s'
  unfolding migrate_from
  migrate_from-HasColumn altered s s' none read e = absurd (cc e)
  migrate_from-HasColumn altered s s' (some cols) read e =
      add_columns-HasColumn altered cols migrations s s' (λ n i. (cols, read, i)) e

  -- After a migration without an error the table has every column that `migrate` is about, whichever of
  -- them it had before, and all the columns that it had.
  pub migrate-HasColumn :
      IsAltered
      → (s s' : D.State) → migrate F D s ≡ some s'
      → All (λ m. HasColumn s' m.0) migrations
        × ((name : String) → HasColumn s name → HasColumn s' name)
  unfolding migrate
  migrate-HasColumn altered s s' e = migrate_from-HasColumn altered s s' (D.columns s) refl e
