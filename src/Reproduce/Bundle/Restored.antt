-- ===== src/Reproduce/Bundle/Restored.antt =====
-- internal/reproduce/export.go: what a bundle brings back of a run.
use harnesslab.Store.{Run}
use harnesslab.Reproduce.Lock.{Lock, generate_lock}
use harnesslab.Reproduce.Bundle.{
  Manifest, Archives, Exported, Coders, put_if_read, write_zip, extracted, extract, load_manifest,
  decoded_manifest, spec_text, parsed_spec, replay_name, run_entries, base_entries, manifest_of,
  bundle, outcome, export_locked, export, or_nil,
}
use harnesslab.Reproduce.Bundle.Extracted.{
  stored, IsArchive, lookup, lookup-put, lookup-put_if_read, written-read, target, at_path,
  extract_entries-read, at_path-put, Apart, at_path-lookup,
}
use harnesslab.Shared.Float.{Floats}
use harnesslab.Shared.{
  String, Bool, true, false, ◌≡◌, refl, sym, ap, ◌∙◌, Option, some, List, [], ◌∷◌, Bytes, string_eq,
  ◌==◌, map,
}
use Prim.Native.String.{◌++◌ as ◌<>◌}

abbrev state_or : {S : Type 0} → S → Exported S → S
state_or s (Exported.exported t) = t
state_or s _ = s

module _ (F : Floats) (D : Archives) (law : IsArchive D) (c : Coders D F)
    (join : List String → String) (dir_of : String → String) (home path dir : String) (run : Run F)
    (lock : Lock F) (s s1 s2 : D.State) where
  outcome-exported :
      (r : D.State × Bool) → outcome D F c join home r ≡ Exported.exported s1 → r ≡ (s1, true)
  outcome-exported (t, true) h = ap (λ e. (state_or t e, true)) h
  outcome-exported (t, false) h = absurd (cc h)

  module _
      (locked : generate_lock F c.environment
          (parsed_spec D F c join home (spec_text D F c join home run s))
        ≡ some lock)
      (out : export D F c join home path (some run) s ≡ Exported.exported s1)
      (back : extract D join dir_of path dir s1 ≡ (s2, true)) where
    written-bundle : write_zip D path (bundle D F c join home run s lock) s ≡ (s1, true)
    unfolding export export_locked
    written-bundle =
        outcome-exported (write_zip D path (bundle D F c join home run s lock) s)
          (ap (export_locked D F c join home path run s) (sym locked) ∙ out)

    archived : D.open_reader path s1 ≡ some (map stored (bundle D F c join home run s lock))
    unfolding write_zip
    archived =
        written-read D law path (bundle D F c join home run s lock) s s1 (D.create path s) refl
          written-bundle

    restored :
        (q : String)
        → D.read_file q s2
          ≡ at_path D law join dir_of dir (bundle D F c join home run s lock) q (D.read_file q s1)
    unfolding extract extracted
    restored q =
        extract_entries-read D law join dir_of dir (bundle D F c join home run s lock) s1 s2 q
          (ap (extracted D join dir_of dir s1) (sym archived) ∙ back)

    patch-put :
        (old : Option Bytes)
        → ("git.patch" == replay_name D F c join home run) ≡ false
        → lookup (bundle D F c join home run s lock) "git.patch" old ≡ some run.workspace_patch
    patch-put old other =
        let es = run_entries D F c join home run s lock in
        let base = base_entries D F c join home run s lock in
        let trace = D.read_file (join (home ∷ "traces" ∷ (run.id <> ".jsonl") ∷ [])) s in
        let replay = D.read_file (join (home ∷ "replay" ∷ run.id ∷ "entries.jsonl" ∷ [])) s in
        lookup-put "manifest.json"
          (or_nil (c.marshal_manifest (manifest_of D F c join home run es))) es "git.patch" old refl
        ∙ lookup-put_if_read (replay_name D F c join home run) replay
            (put_if_read "trace.jsonl" trace base) "git.patch" old other
        ∙ lookup-put_if_read "trace.jsonl" trace base "git.patch" old refl

    -- After a run was exported and its bundle extracted, both without an error, the manifest that is loaded is
    -- the one of the run, if it is decoded from what it is encoded to; and the file git.patch is the patch of
    -- the run, if its path is that of no other entry.
    pub extract-export :
        (decode : Bytes → Option Manifest) (text : Bytes)
        → c.marshal_manifest
            (manifest_of D F c join home run (run_entries D F c join home run s lock))
          ≡ some text
        → decode text
          ≡ some (manifest_of D F c join home run (run_entries D F c join home run s lock))
        → ("git.patch" == replay_name D F c join home run) ≡ false
        → Apart D law join dir_of dir "git.patch" (bundle D F c join home run s lock)
        → (load_manifest D join dir_of decode dir s2
            ≡ some (manifest_of D F c join home run (run_entries D F c join home run s lock)))
          × (D.read_file (join (dir ∷ "git.patch" ∷ [])) s2 ≡ some run.workspace_patch)
    unfolding load_manifest
    extract-export decode text encoded decoded other apart =
        let es = run_entries D F c join home run s lock in
        let all = bundle D F c join home run s lock in
        let file = target D law join dir_of dir in
        (
          ap (decoded_manifest D join dir_of decode) (
                restored (file "manifest.json")
                ∙ at_path-put D law join dir_of dir "manifest.json"
                    (or_nil (c.marshal_manifest (manifest_of D F c join home run es))) es
                    (D.read_file (file "manifest.json") s1)
                ∙ ap (λ o. some (or_nil o)) encoded)
              ∙ decoded,
          restored (file "git.patch")
              ∙ at_path-lookup D law join dir_of dir all "git.patch"
                  (D.read_file (file "git.patch") s1) apart
              ∙ patch-put (D.read_file (file "git.patch") s1) other,
        )
