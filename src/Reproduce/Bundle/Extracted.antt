-- ===== src/Reproduce/Bundle/Extracted.antt =====
-- internal/reproduce/export.go: a run that is exported and extracted.
use harnesslab.Store.Interface.{attempted}
use harnesslab.Reproduce.Bundle.{
  ZipEntry, Archives, Entries, without, put, put_if_read, add_entries, closed, written, proceed,
  extract_entries,
}
use harnesslab.Shared.Panics.{>>=-eq-some}
use mathlib.Core.List.{append_assoc, append-nil}
use mathlib.Core.Option.{some-injective}
use harnesslab.Shared.{
  String, Bool, true, false, ◌≡◌, refl, sym, ap, ◌∙◌, Option, none, some, List, [], ◌∷◌, ◌++◌, map,
  Bytes, All, string_eq, ◌==◌, if◌then◌else◌, Bool-cases, inl, inr,
}

abbrev pub stored : String × Bytes → ZipEntry
stored (name, d) = record { is_dir = false; name = name; content = some d }

-- The documented behaviour of zip and of files: an archive that is closed is read back with the entries that
-- were added, a file that is written is read back, and nothing else changes a file.
pub record IsArchive (D : Archives) : Type 0 where
  pub entries_of : D.Writer → Entries
  pub path_of : D.Writer → String
  pub create-empty :
      (p : String) (s s' : D.State) (w : D.Writer)
      → D.create p s ≡ some (w, s')
      → (entries_of w ≡ []) × (path_of w ≡ p)
  pub add-entries :
      (name : String) (d : Bytes) (w w' : D.Writer)
      → D.add_entry name d w ≡ some w'
      → (entries_of w' ≡ entries_of w ++ (name, d) ∷ []) × (path_of w' ≡ path_of w)
  pub open-close :
      (w : D.Writer) (s s' : D.State)
      → D.close_writer w s ≡ some s'
      → D.open_reader (path_of w) s' ≡ some (map stored (entries_of w))
  pub read-write :
      (p q : String) (d : Bytes) (s s' : D.State)
      → D.write_file p d s ≡ some s'
      → D.read_file q s' ≡ (if q == p then some d else D.read_file q s)
  pub read-mkdir :
      (p q : String) (s s' : D.State)
      → D.mkdir_all p s ≡ some s'
      → D.read_file q s' ≡ D.read_file q s

-- What stands under a name, with what was there before.
abbrev pub lookup : Entries → String → Option Bytes → Option Bytes
lookup [] n old = old
lookup ((k, d) ∷ es) n old = lookup es n (if n == k then some d else old)

lookup-append :
    (xs ys : Entries) (n : String) (old : Option Bytes)
    → lookup (xs ++ ys) n old ≡ lookup ys n (lookup xs n old)
lookup-append [] ys n old = refl
lookup-append ((k, d) ∷ xs) ys n old = lookup-append xs ys n (if n == k then some d else old)

lookup-without :
    (k : String) (es : Entries) (n : String) (old : Option Bytes)
    → (n == k) ≡ false
    → lookup (without k es) n old ≡ lookup es n old
lookup-without k [] n old h = refl
lookup-without k ((j, d) ∷ es) n old h = elim (Bool-cases (j == k)) [
  | inl e ↦
      let same : j ≡ k = (string_eq.decides j k).0 e in
      let apart : (n == j) ≡ false = ap (λ x. n == x) same ∙ h in
      rw (e, apart) (lookup-without k es n old h)
  | inr e ↦ rw e (lookup-without k es n (if n == j then some d else old) h)
]

pub lookup-put :
    (k : String) (d : Bytes) (es : Entries) (n : String) (old : Option Bytes)
    → (n == k) ≡ false
    → lookup (put k d es) n old ≡ lookup es n old
lookup-put k d es n old h =
    lookup-append (without k es) ((k, d) ∷ []) n old
    ∙ ap (λ b. if b then some d else lookup (without k es) n old) h
    ∙ lookup-without k es n old h

pub lookup-put_if_read :
    (k : String) (o : Option Bytes) (es : Entries) (n : String) (old : Option Bytes)
    → (n == k) ≡ false
    → lookup (put_if_read k o es) n old ≡ lookup es n old
lookup-put_if_read k none es n old h = refl
lookup-put_if_read k (some d) es n old h = lookup-put k d es n old h

module _ (D : Archives) (law : IsArchive D) where
  add_entries-entries :
      (es : Entries) (w w' : D.Writer)
      → add_entries D es w ≡ some w'
      → (law.entries_of w' ≡ law.entries_of w ++ es) × (law.path_of w' ≡ law.path_of w)
  add_entries-entries [] w w' h =
      let same : w ≡ w' = some-injective w w' h in
      (
        ap law.entries_of (sym same) ∙ sym (append-nil (law.entries_of w)),
        ap law.path_of (sym same),
      )
  add_entries-entries ((k, d) ∷ es) w w' h =
      let (w1, e, g) = >>=-eq-some (D.add_entry k d w) (add_entries D es) w' h in
      let (added, path) = law.add-entries k d w w1 e in
      let (all, path') = add_entries-entries es w1 w' g in
      (
        all ∙ ap (λ x. x ++ es) added ∙ append_assoc (law.entries_of w) ((k, d) ∷ []) es,
        path' ∙ path,
      )

  attempted-done : (s s' : D.State) (o : Option D.State) → attempted s o ≡ (s', true) → o ≡ some s'
  attempted-done s s' none h = absurd (cc h)
  attempted-done s s' (some t) h = ap (λ x. some x.0) h

  closed-done :
      (s s' : D.State) (o : Option D.Writer)
      → closed D s o ≡ (s', true)
      → (w : D.Writer) × (o ≡ some w) × (D.close_writer w s ≡ some s')
  closed-done s s' none h = absurd (cc h)
  closed-done s s' (some w) h = (w, refl, attempted-done s s' (D.close_writer w s) h)

  pub written-read :
      (path : String) (es : Entries) (s s' : D.State) (o : Option (D.Writer × D.State))
      → D.create path s ≡ o
      → written D es s o ≡ (s', true)
      → D.open_reader path s' ≡ some (map stored es)
  written-read path es s s' none c h = absurd (cc h)
  written-read path es s s' (some (w, s1)) c h =
      let (w', added, done) = closed-done s1 s' (add_entries D es w) h in
      let (empty, p) = law.create-empty path s s1 w c in
      let (all, p') = add_entries-entries es w w' added in
      ap (λ x. D.open_reader x s') (sym (p' ∙ p))
      ∙ law.open-close w' s1 s' done
      ∙ ap (λ x. some (map stored x)) (all ∙ ap (λ x. x ++ es) empty)

  module _ (join : List String → String) (dir_of : String → String) (dir : String) where
    abbrev pub target : String → String
    target name = join (dir ∷ name ∷ [])

    proceed-done :
        (s s' : D.State) (o : Option D.State) (k : D.State → D.State × Bool)
        → proceed D s o k ≡ (s', true)
        → (t : D.State) × (o ≡ some t) × (k t ≡ (s', true))
    proceed-done s s' none k h = absurd (cc h)
    proceed-done s s' (some t) k h = (t, refl, h)

    -- What stands under a path after the files of the entries are written.
    abbrev pub at_path : Entries → String → Option Bytes → Option Bytes
    at_path [] q old = old
    at_path ((k, d) ∷ es) q old = at_path es q (if q == target k then some d else old)

    pub extract_entries-read :
        (es : Entries) (s s' : D.State) (q : String)
        → extract_entries D join dir_of dir (map stored es) s ≡ (s', true)
        → D.read_file q s' ≡ at_path es q (D.read_file q s)
    unfolding extract_entries
    extract_entries-read [] s s' q h = ap (λ (x : D.State × Bool). D.read_file q x.0) (sym h)
    extract_entries-read ((k, d) ∷ es) s s' q h =
        let (s1, made, h1) = proceed-done s s' (D.mkdir_all (dir_of (target k)) s) _ h in
        let (s2, wrote, h2) = proceed-done s1 s' (D.write_file (target k) d s1) _ h1 in
        extract_entries-read es s2 s' q h2
        ∙ ap (at_path es q) (
            law.read-write (target k) q d s1 s2 wrote
            ∙ ap (λ o. if q == target k then some d else o)
                (law.read-mkdir (dir_of (target k)) q s s1 made))

    at_path-append :
        (xs ys : Entries) (q : String) (old : Option Bytes)
        → at_path (xs ++ ys) q old ≡ at_path ys q (at_path xs q old)
    at_path-append [] ys q old = refl
    at_path-append ((k, d) ∷ xs) ys q old =
        at_path-append xs ys q (if q == target k then some d else old)

    pub at_path-put :
        (k : String) (d : Bytes) (es : Entries) (old : Option Bytes)
        → at_path (put k d es) (target k) old ≡ some d
    at_path-put k d es old =
        at_path-append (without k es) ((k, d) ∷ []) (target k) old
        ∙ ap (λ b. if b then some d else at_path (without k es) (target k) old)
            ((string_eq.decides (target k) (target k)).1 refl)

    -- The path of a name is that of no entry with another name.
    abbrev pub Apart : String → Entries → Type 0
    Apart n es = All (λ e. (target n == target e.0) ≡ (n == e.0)) es

    pub at_path-lookup :
        (es : Entries) (n : String) (old : Option Bytes)
        → Apart n es
        → at_path es (target n) old ≡ lookup es n old
    at_path-lookup [] n old h = refl
    at_path-lookup ((k, d) ∷ es) n old (e, h) =
        ap (λ b. at_path es (target n) (if b then some d else old)) e
        ∙ at_path-lookup es n (if n == k then some d else old) h
