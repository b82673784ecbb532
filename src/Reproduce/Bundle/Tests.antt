-- ===== src/Reproduce/Bundle/Tests.antt =====
-- internal/reproduce/export.go: a run that is exported and extracted on small files. Texts are not parsed here:
-- every text is the specification of the tests of Spec.
use harnesslab.Store.{Run}
use harnesslab.Store.Tests.{empty_run}
use harnesslab.Spec.Tests.{settled}
use harnesslab.Reproduce.{zero_environment}
use harnesslab.Reproduce.Lock.{Lock, BuildInfo, capture, generate_lock}
use harnesslab.Reproduce.Bundle.{
  Manifest, ZipEntry, Archives, Exported, Entries, Coders, write_zip, extract_entries, extract,
  load_manifest, export, export_locked, bundle, run_entries, manifest_of,
}
use harnesslab.Reproduce.Bundle.Extracted.{stored, IsArchive}
use harnesslab.Reproduce.Bundle.Restored.{extract-export}
use harnesslab.Reproduce.Bundle.Panics.{NoSpec, export-panicked}
use harnesslab.Shared.Float.{whole_floats}
use harnesslab.Shared.Text.{bytes_beq}
use mathlib.Core.Option.{some-injective}
use harnesslab.Shared.{
  String, Bool, true, false, ◌≡◌, ◌↔◌, refl, sym, ap, Option, none, some, List, [], ◌∷◌, ◌++◌, map,
  Bytes, bytes, bytes_eq, string_eq, ◌==◌, if◌then◌else◌,
}

pub record Disk : Type 0 where
  pub file : String → Option Bytes
  pub archive : Option (List ZipEntry)

abbrev new_writer : Bool → Disk → Option (Entries × Disk)
new_writer true d = some ([], d)
new_writer false d = none

abbrev archives : Archives
archives = record {
  State = Disk;
  Writer = Entries;
  read_file = λ p d. d.file p;
  create = λ p d. new_writer (p == "out.harness") d;
  add_entry = λ name text w. some (w ++ (name, text) ∷ []);
  close_writer = λ w d. some (record d { archive = some (map stored w) });
  open_reader = λ p d. if p == "out.harness" then d.archive else none;
  mkdir_all = λ p d. some d;
  write_file = λ p text d. some (record d { file = λ q. if q == p then some text else d.file q });
}

-- The last part of a path stands for it.
abbrev last_of : List String → String
last_of [] = ""
last_of (a ∷ []) = a
last_of (a ∷ b ∷ more) = last_of (b ∷ more)

new_writer-some :
    (b : Bool) (d d' : Disk) (w : Entries) → new_writer b d ≡ some (w, d') → (w ≡ []) × (b ≡ true)
new_writer-some true d d' w h = (sym (ap (λ x. x.0) (some-injective ([], d) (w, d') h)), refl)
new_writer-some false d d' w h = absurd (cc h)

archives-IsArchive : IsArchive archives
archives-IsArchive = record {
  entries_of = λ w. w;
  path_of = λ w. "out.harness";
  create-empty = λ p s s' w h.
      let (e, b) = new_writer-some (p == "out.harness") s s' w h in
      (e, sym ((string_eq.decides p "out.harness").0 b));
  add-entries = λ name d w w' h. (sym (some-injective (w ++ (name, d) ∷ []) w' h), refl);
  open-close = λ w s s' h. ap (λ (d : Disk). d.archive) (sym (some-injective _ s' h));
  read-write = λ p q d s s' h. ap (λ (t : Disk). t.file q) (sym (some-injective _ s' h));
  read-mkdir = λ p q s s' h. ap (λ (t : Disk). t.file q) (sym (some-injective s s' h));
}

abbrev coders : Coders archives whole_floats
coders = record {
  parse_spec = λ text. if text == bytes "yaml" then some settled else none;
  marshal_lock = λ lock. some (bytes "lock");
  marshal_environment = λ env. none;
  marshal_metrics = λ m. some (bytes "{}");
  marshal_manifest = λ m. some (bytes "manifest");
  environment = zero_environment;
  now = 9;
}

abbrev run : Run whole_floats
unfolding empty_run whole_floats
run = record (empty_run "run-1") { spec_yaml = "yaml"; workspace_patch = bytes "+x" }

-- The trace can be read, the journal cannot.
abbrev before : Disk
before = record {
  file = λ p. if p == "run-1.jsonl" then some (bytes "{}") else none;
  archive = none;
}

abbrev lock : Lock whole_floats
lock = record {
  version = settled.version;
  name = settled.name;
  runtime = settled.runtime;
  model = settled.model;
  planning = settled.planning;
  tools = settled.tools;
  verification = settled.verification;
  budget = settled.budget;
  environment = zero_environment;
}

abbrev run_without_spec : Run whole_floats
unfolding empty_run whole_floats
run_without_spec = empty_run "run-2"

no_spec_stops :
    export archives whole_floats coders last_of "home" "out.harness"
      (some (empty_run "run-2"))
      before
    ≡ Exported.panicked
unfolding export export_locked generate_lock empty_run whole_floats bytes_beq
no_spec_stops = refl

export-panicked_example :
    (export archives whole_floats coders last_of "home" "out.harness" (some run_without_spec) before
      ≡ Exported.panicked)
    ↔ NoSpec whole_floats archives coders last_of "home" "out.harness" run_without_spec before
        run_without_spec.spec_yaml
        (before.file "harness.yaml")
export-panicked_example =
    export-panicked whole_floats archives coders last_of "home" "out.harness" run_without_spec
      before

abbrev entries : Entries
entries = bundle archives whole_floats coders last_of "home" run before lock

abbrev after : Disk
after = record before { archive = some (map stored entries) }

abbrev expected : Manifest
expected =
    manifest_of archives whole_floats coders last_of "home" run
      (run_entries archives whole_floats coders last_of "home" run before lock)

abbrev decode : Bytes → Option Manifest
decode text = some expected

abbrev restored : Disk
unfolding extract extract_entries
restored = (extract archives last_of (λ p. p) "out.harness" "dir" after).0

extract-export_example :
    (load_manifest archives last_of (λ p. p) decode "dir" restored ≡ some expected)
    × (archives.read_file (last_of ("dir" ∷ "git.patch" ∷ [])) restored ≡ some run.workspace_patch)
unfolding restored extract extract_entries export export_locked generate_lock write_zip run
    empty_run whole_floats bytes_beq
extract-export_example =
    extract-export whole_floats archives archives-IsArchive coders last_of (λ p. p) "home"
      "out.harness" "dir" run lock before after restored refl refl refl decode (bytes "manifest")
      refl refl refl (refl, (refl, (refl, (refl, (refl, (refl, (refl, tt)))))))

abbrev build_info : BuildInfo
build_info = record {
  main_version = "v1";
  deps = ("a", "v2") ∷ ("trpc.group/trpc-go/trpc-agent-go", "v3") ∷ [];
}

captured :
    (capture (λ out. "git") "go1" "linux" "amd64" none (some build_info)).trpc_agent_go ≡ "v3"
unfolding capture
captured = refl
