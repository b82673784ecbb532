-- ===== src/Builder/Build.antt =====
-- internal/harness/builder/builder.go: `Build`, which assembles a harness.
mod Parts
mod Confined
mod Replaying
mod Supported
mod Close
mod Tests
use harnesslab.Store.{Status, no_metrics, no_verification, Run}
use harnesslab.Spec.Types.{HarnessSpec, SandboxSpec}
use harnesslab.Sandbox.Backends.{Sandbox, Creation}
use harnesslab.Sandbox.Harness.{harness_sandbox}
use harnesslab.Spec.Access.{sandbox_enabled}
use harnesslab.Workspace.{Instance, WorkspaceSpec}
use harnesslab.Replay.Canonical.{Canonicalizer}
use harnesslab.Replay.Tools.{ReplayMode}
use harnesslab.Trpc.Runtime.{Tool, ReplayConfig, TrpcRuntime, new_trpc}
use harnesslab.Codex.{new_codex}
use harnesslab.Builder.Surroundings.{
  BuildOptions, StoreKind, BuildError, Built, ◌>>=◌, when_done, result_or, root_of, root_or_empty,
  Surroundings,
}
use harnesslab.Shared.Float.{Floats}
use harnesslab.Shared.{
  ℕ, String, Bool, true, false, not, ◌&&◌, ◌||◌, Option, none, some, List, [], ◌∷◌, ◌++◌, map,
  Bytes, bytes, ◌==◌, string_eq, if◌then◌else◌,
}
use Prim.Native.String.{◌++◌ as ◌<>◌}

module _ (F : Floats) where
  pub data Runtime : Type 0 where
    trpc : TrpcRuntime F → Runtime
    codex : HarnessSpec F → Runtime

  pub record Harness : Type 0 where
    pub spec : HarnessSpec F
    pub run_id : String
    pub user_id : String
    pub workspace : Option Instance
    pub runtime : Runtime
    pub store : StoreKind
    pub trace_path : String
    pub run_record : Run F
    pub replay : ReplayConfig
    pub sandbox : Sandbox
    pub replay_patch : Bytes

  module _ (e : Surroundings F) where
    abbrev pub store_opened : StoreKind → Built StoreKind
    store_opened kind = when_done (e.open_store kind) BuildError.store_failed kind

    unfoldable pub open_store : BuildOptions → Built StoreKind
    open_store o =
        let dir = e.join (o.harness_dir ∷ "store" ∷ []) in
        if o.store_driver == "" || o.store_driver == "json"
        then store_opened (StoreKind.json_dir dir)
        else if o.store_driver == "sqlite"
        then store_opened (StoreKind.sqlite_file (e.join (dir ∷ "harness.db" ∷ [])))
        else Built.err (BuildError.unsupported_store o.store_driver)

    abbrev pub some_workspace : Option Instance → Built (Option Instance)
    some_workspace none = Built.err BuildError.workspace_failed
    some_workspace (some w) = Built.ok (some w)

    unfoldable pub open_workspace : BuildOptions → Built (Option Instance)
    open_workspace o =
        if not (o.repo == "") || not (o.commit == "")
        then some_workspace
            (e.create_workspace e.fresh_id (record { repo = o.repo; commit = o.commit }))
        else Built.ok none

    abbrev pub sandbox_made : Option Creation → Built Sandbox
    sandbox_made none = Built.err BuildError.timeout_failed
    sandbox_made (some (Creation.created sb)) = Built.ok sb
    sandbox_made (some Creation.not_on_windows) = Built.err BuildError.not_on_windows
    sandbox_made (some (Creation.unsupported t)) = Built.err (BuildError.unsupported_sandbox t)

    abbrev pub file_group : String → Bool → Built (List Tool)
    file_group dir false = Built.ok []
    file_group dir true = do
      names ← result_or BuildError.file_tools_failed (e.file_tools dir)
      Built.ok (map Tool.file_tool names)

    abbrev pub shell_group : String → Sandbox → Bool → Bool → List Tool → Built (List Tool)
    shell_group dir sb false enabled tools = Built.ok tools
    shell_group dir sb true true tools = Built.ok (tools ++ Tool.sandbox_shell sb dir ∷ [])
    shell_group dir sb true false tools = do
      names ← result_or BuildError.host_tools_failed (e.host_tools dir)
      Built.ok (tools ++ map Tool.host_shell names)

    unfoldable pub build_tools : HarnessSpec F → Option Instance → Sandbox → Built (List Tool)
    unfolding sandbox_enabled
    build_tools s ws sb = do
      tools ← file_group (root_of ws) s.tools.filesystem
      shell_group (root_of ws) sb s.tools.shell (sandbox_enabled s.sandbox) tools

    abbrev pub runtime_or : BuildError → Option Runtime → Built Runtime
    runtime_or f none = Built.err f
    runtime_or f (some r) = Built.ok r

    abbrev pub trpc_of : Option (TrpcRuntime F) → Option Runtime
    trpc_of none = none
    trpc_of (some r) = some (Runtime.trpc r)

    abbrev pub codex_of : Option (HarnessSpec F) → Option Runtime
    codex_of none = none
    codex_of (some s) = some (Runtime.codex s)

    unfoldable pub new_runtime : HarnessSpec F → List Tool → Built Runtime
    unfolding new_trpc new_codex
    new_runtime s tools =
        let refused = BuildError.unsupported_runtime s.runtime.type in
        if s.runtime.type == "" || s.runtime.type == "trpc"
        then runtime_or refused (trpc_of (new_trpc F s tools))
        else if s.runtime.type == "codex"
        then runtime_or refused (codex_of (new_codex F s))
        else Built.err refused

    abbrev pub journal_of : BuildOptions → String → String
    journal_of o id = e.join (o.harness_dir ∷ "replay" ∷ id ∷ "entries.jsonl" ∷ [])

    abbrev pub replay_config : BuildOptions → ReplayMode → String → String → ReplayConfig
    replay_config o mode path root = record {
      mode = mode;
      store = some path;
      canonicalizer = some (record { workspace_root = bytes root; temp_dir = e.temp_dir });
      replay_model = o.replay_model;
    }

    unfoldable pub build_replay : BuildOptions → String → String → Built ReplayConfig
    build_replay o id root =
        let from = journal_of o o.replay_from in
        let own = journal_of o id in
        if not (o.replay_from == "")
        then when_done (e.open_journal from) BuildError.journal_failed (
            replay_config o (if o.replay_fallback then ReplayMode.fallback else ReplayMode.strict)
              from root)
        else when_done (e.open_journal own) BuildError.journal_failed
            (replay_config o ReplayMode.recording own root)

    abbrev encoded_or_empty : Option String → String
    encoded_or_empty none = ""
    encoded_or_empty (some t) = t

    abbrev pub first_record : HarnessSpec F → BuildOptions → String → String → Run F
    first_record s o root trace = record {
      id = e.fresh_id;
      task = "";
      harness_version = s.version;
      harness_name = s.name;
      repository = o.repo;
      commit = o.commit;
      workspace = root;
      trace_path = trace;
      started_at = e.started;
      finished_at = 0;
      status = Status.running;
      metrics = no_metrics F;
      spec_yaml = encoded_or_empty (e.marshal_spec s);
      workspace_patch = [];
      verification = no_verification;
      environment = encoded_or_empty e.environment;
    }

    abbrev pub with_dir : BuildOptions → BuildOptions
    with_dir o = record o {
      harness_dir = if o.harness_dir == "" then ".harness" else o.harness_dir;
    }

    -- After the default of the directory.
    unfoldable pub build_in : HarnessSpec F → BuildOptions → Built Harness
    unfolding open_store open_workspace harness_sandbox build_tools new_runtime build_replay
    build_in s o = do
      store ← open_store o
      ws ← open_workspace o
      sb ← sandbox_made (harness_sandbox e.parse_duration e.goos s.sandbox)
      tools ← build_tools s ws sb
      rt ← new_runtime s tools
      let trace = e.join (o.harness_dir ∷ "traces" ∷ (e.fresh_id <> ".jsonl") ∷ [])
      path ← when_done (e.open_trace trace) BuildError.trace_failed trace
      let run = first_record s o (root_or_empty ws) trace
      made ← when_done (e.create_run run) BuildError.run_not_created run
      replay ← build_replay o e.fresh_id (root_or_empty ws)
      Built.ok (record {
        spec = s;
        run_id = e.fresh_id;
        user_id = o.user_id;
        workspace = ws;
        runtime = rt;
        store = store;
        trace_path = trace;
        run_record = run;
        replay = replay;
        sandbox = sb;
        replay_patch = o.replay_patch;
      })

    unfoldable pub build : HarnessSpec F → BuildOptions → Built Harness
    unfolding build_in
    build s o = build_in s (with_dir o)
