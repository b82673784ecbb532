-- ===== src/Reproduce/Bundle.antt =====
-- internal/reproduce/export.go: bundles of runs. The file system, the package zip, filepath.Join and
-- filepath.Dir, and the coders of YAML and JSON are parameters. A Go map is the list of its entries.
pub mod Extracted
pub mod Restored
pub mod Panics
mod Tests
use harnesslab.Store.{Run, Metrics, Status}
use harnesslab.Store.Interface.{attempted}
use harnesslab.Reproduce.{Environment}
use harnesslab.Reproduce.Lock.{Lock, generate_lock}
use harnesslab.Spec.Types.{HarnessSpec}
use harnesslab.Shared.Float.{Floats}
use harnesslab.Shared.Panics.{◌>>=◌}
use harnesslab.Shared.{
  ℕ, String, Bool, true, false, not, Option, none, some, List, [], ◌∷◌, ◌++◌, Bytes, bytes,
  bytes_eq, string_eq, ◌==◌, if◌then◌else◌,
}
use Prim.Native.String.{◌++◌ as ◌<>◌}

pub record Manifest : Type 0 where
  pub run_id : String
  pub task : String
  pub repo : String
  pub commit : String
  pub harness : String
  pub status : Status
  pub exported_at : ℕ
  pub files : List String

-- An entry of an archive that is read; `content` is nothing if it cannot be read.
pub record ZipEntry : Type 0 where
  pub is_dir : Bool
  pub name : String
  pub content : Option Bytes

-- `create` is os.Create with a new writer of zip, `add_entry` makes an entry and writes its text.
pub record Archives : Type 1 where
  pub State : Type 0
  pub Writer : Type 0
  pub read_file : String → State → Option Bytes
  pub create : String → State → Option (Writer × State)
  pub add_entry : String → Bytes → Writer → Option Writer
  pub close_writer : Writer → State → Option State
  pub open_reader : String → State → Option (List ZipEntry)
  pub mkdir_all : String → State → Option State
  pub write_file : String → Bytes → State → Option State

pub data ExportError : Type 0 where
  nil_run not_written : ExportError

pub data Exported (S : Type 0) : Type 0 where
  failed : ExportError → S → Exported S
  panicked : Exported S
  exported : S → Exported S

abbrev pub Entries : Type 0
Entries = List (String × Bytes)

abbrev pub without : String → Entries → Entries
without name [] = []
without name ((k, d) ∷ es) = let rest = without name es in if k == name then rest else (k, d) ∷ rest

-- An entry of the same name is replaced.
abbrev pub put : String → Bytes → Entries → Entries
put name data_ es = without name es ++ (name, data_) ∷ []

abbrev pub put_if_read : String → Option Bytes → Entries → Entries
put_if_read name none es = es
put_if_read name (some d) es = put name d es

abbrev pub names : Entries → List String
names [] = []
names ((k, d) ∷ es) = k ∷ names es

abbrev pub or_nil : Option Bytes → Bytes
or_nil none = []
or_nil (some b) = b

module _ (D : Archives) where
  abbrev pub add_entries : Entries → D.Writer → Option D.Writer
  add_entries [] w = some w
  add_entries ((name, d) ∷ es) w = do w' ← D.add_entry name d w; add_entries es w'

  abbrev pub closed : D.State → Option D.Writer → D.State × Bool
  closed s none = (s, false)
  closed s (some w) = attempted s (D.close_writer w s)

  abbrev pub written : Entries → D.State → Option (D.Writer × D.State) → D.State × Bool
  written es s none = (s, false)
  written es s (some (w, s')) = closed s' (add_entries es w)

  -- `writeZip`
  unfoldable pub write_zip : String → Entries → D.State → D.State × Bool
  write_zip path es s = written es s (D.create path s)

  abbrev pub proceed : D.State → Option D.State → (D.State → D.State × Bool) → D.State × Bool
  proceed s none k = (s, false)
  proceed s (some s') k = k s'

  abbrev pub with_content : D.State → Option Bytes → (Bytes → D.State × Bool) → D.State × Bool
  with_content s none k = (s, false)
  with_content s (some d) k = k d

  module _ (join : List String → String) (dir_of : String → String) where
    -- The loop of `Extract`, which stops at the first error.
    unfoldable pub extract_entries : String → List ZipEntry → D.State → D.State × Bool
    extract_entries dir [] s = (s, true)
    extract_entries dir (e ∷ es) s =
        let target = join (dir ∷ e.name ∷ []) in
        let rest = λ (s' : D.State). extract_entries dir es s' in
        if e.is_dir
        then rest s
        else proceed s (D.mkdir_all (dir_of target) s)
            (λ s1. with_content s1 e.content (λ d. proceed s1 (D.write_file target d s1) rest))

    abbrev pub extracted : String → D.State → Option (List ZipEntry) → D.State × Bool
    unfolding extract_entries
    extracted dir s none = (s, false)
    extracted dir s (some es) = extract_entries dir es s

    unfoldable pub extract : String → String → D.State → D.State × Bool
    unfolding extracted
    extract bundle dir s = extracted dir s (D.open_reader bundle s)

    abbrev pub decoded_manifest : (Bytes → Option Manifest) → Option Bytes → Option Manifest
    decoded_manifest decode none = none
    decoded_manifest decode (some text) = decode text

    unfoldable pub load_manifest : (Bytes → Option Manifest) → String → D.State → Option Manifest
    load_manifest decode dir s =
        decoded_manifest decode (D.read_file (join (dir ∷ "manifest.json" ∷ [])) s)

  module _ (F : Floats) where
    -- What is encoded, and the clock.
    pub record Coders : Type 0 where
      pub parse_spec : Bytes → Option (HarnessSpec F)
      pub marshal_lock : Lock F → Option Bytes
      pub marshal_environment : Environment → Option Bytes
      pub marshal_metrics : Metrics F → Option Bytes
      pub marshal_manifest : Manifest → Option Bytes
      pub environment : Environment
      pub now : ℕ

    module _ (c : Coders) (join : List String → String) (harness_dir : String) where
      abbrev pub spec_text : Run F → D.State → Bytes
      spec_text run s =
          if run.spec_yaml == ""
          then or_nil (D.read_file (join (harness_dir ∷ "harness.yaml" ∷ [])) s)
          else bytes run.spec_yaml

      -- The specification, which is a nil pointer if its text is empty or cannot be parsed.
      abbrev pub parsed_spec : Bytes → Option (HarnessSpec F)
      parsed_spec text = if not (text == []) then c.parse_spec text else none

      abbrev pub replay_name : Run F → String
      replay_name run = join ("replay" ∷ run.id ∷ "entries.jsonl" ∷ [])

      abbrev pub base_entries : Run F → D.State → Lock F → Entries
      base_entries run s lock =
          ("harness.yaml", spec_text run s)
          ∷ ("harness.lock", or_nil (c.marshal_lock lock))
          ∷ ("metrics.json", or_nil (c.marshal_metrics run.metrics))
          ∷ ("git.patch", run.workspace_patch)
          ∷ ("environment.json", or_nil (c.marshal_environment c.environment))
          ∷ []

      abbrev pub run_entries : Run F → D.State → Lock F → Entries
      run_entries run s lock =
          put_if_read (replay_name run)
            (D.read_file (join (harness_dir ∷ "replay" ∷ run.id ∷ "entries.jsonl" ∷ [])) s)
            (put_if_read "trace.jsonl"
              (D.read_file (join (harness_dir ∷ "traces" ∷ (run.id <> ".jsonl") ∷ [])) s)
              (base_entries run s lock))

      abbrev pub manifest_of : Run F → Entries → Manifest
      manifest_of run es = record {
        run_id = run.id;
        task = run.task;
        repo = run.repository;
        commit = run.commit;
        harness = run.harness_name;
        status = run.status;
        exported_at = c.now;
        files = names es;
      }

      abbrev pub bundle : Run F → D.State → Lock F → Entries
      bundle run s lock =
          let es = run_entries run s lock in
          put "manifest.json" (or_nil (c.marshal_manifest (manifest_of run es))) es

      abbrev pub outcome : D.State × Bool → Exported D.State
      outcome (s, true) = Exported.exported s
      outcome (s, false) = Exported.failed ExportError.not_written s

      abbrev pub export_locked : String → Run F → D.State → Option (Lock F) → Exported D.State
      unfolding write_zip
      export_locked path run s none = Exported.panicked
      export_locked path run s (some lock) = outcome (write_zip path (bundle run s lock) s)

      unfoldable pub export : String → Option (Run F) → D.State → Exported D.State
      unfolding export_locked generate_lock
      export path none s = Exported.failed ExportError.nil_run s
      export path (some run) s =
          export_locked path run s (generate_lock F c.environment (parsed_spec (spec_text run s)))
