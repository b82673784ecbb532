-- ===== src/Builder/Build/Tests.antt =====
-- internal/harness/builder/builder.go: a harness with a docker sandbox, built to replay a run.
use harnesslab.Spec.Tests.{settled, settled-IsValid, is_duration, thirty}
use harnesslab.Sandbox.Backends.{Sandbox, new_sandbox}
use harnesslab.Sandbox.Harness.{harness_sandbox, command_timeout, backend_spec}
use harnesslab.Replay.Tools.{ReplayMode}
use harnesslab.Trpc.Runtime.{
  Tool, LiveModel, ReplayConfig, TrpcRuntime, Agent, make_agent, new_trpc, new_model, gen_config,
  agent_on,
}
use harnesslab.Trpc.Instruction.{build_instruction}
use harnesslab.Spec.Access.{sandbox_enabled}
use harnesslab.Builder.Surroundings.{
  root_of, root_or_empty, BuildOptions, Built, StoreKind, Surroundings,
}
use harnesslab.Builder.Build.Close.{Released, close, released}
use harnesslab.Builder.Build.{
  Harness, Runtime, first_record, replay_config, open_store, open_workspace, build_tools,
  new_runtime, build_replay, build_in, build, with_dir,
}
use harnesslab.Builder.Build.Confined.{Made, shell_tool, build-Confined}
use harnesslab.Spec.Validate.{Checked, validate}
use harnesslab.Builder.Build.Replaying.{build-offline}
use harnesslab.Builder.Build.Supported.{with_provider, runtime_for, new_runtime-supported}
use harnesslab.Shared.Text.{bytes_beq}
use harnesslab.Shared.Float.{whole_floats}
use harnesslab.Shared.{
  map, ◌++◌, if◌then◌else◌, String, true, false, ◌||◌, ◌≡◌, ◌↔◌, refl, Option, none, some, List, [],
  ◌∷◌, bytes, ◌==◌, string_eq,
}

abbrev all_names : List String → String
all_names [] = ""
all_names (a ∷ rest) = a

-- Everything that is asked for can be made.
abbrev around : Surroundings whole_floats
unfolding whole_floats
around = record {
  fresh_id = "run-2";
  join = all_names;
  open_store = λ kind. true;
  create_workspace =
      λ id w. some (record { id = id; root = "w"; repo = w.repo; commit = w.commit });
  goos = bytes "linux";
  parse_duration = thirty;
  file_tools = λ dir. some ("read_file" ∷ []);
  host_tools = λ dir. some ("exec_command" ∷ []);
  open_trace = λ path. true;
  started = 3;
  marshal_spec = λ s. some "yaml";
  environment = none;
  create_run = λ r. true;
  open_journal = λ path. true;
  temp_dir = bytes "/tmp";
}

abbrev options : BuildOptions
options = record {
  harness_dir = "";
  repo = "";
  commit = "";
  user_id = "u";
  replay_from = "run-1";
  replay_fallback = false;
  replay_model = true;
  replay_patch = [];
  store_driver = "";
}

abbrev docker_box : Sandbox
docker_box = Sandbox.docker_sandbox (backend_spec thirty settled.sandbox 30)

abbrev tools : List Tool
tools = Tool.file_tool "read_file" ∷ Tool.sandbox_shell docker_box "." ∷ []

abbrev framework : TrpcRuntime whole_floats
framework = record { spec = settled; tools = tools }

abbrev replaying : ReplayConfig
replaying =
    replay_config whole_floats around (with_dir whole_floats around options) ReplayMode.strict
      ".harness" ""

abbrev made : Harness whole_floats
made = record {
  spec = settled;
  run_id = "run-2";
  user_id = "u";
  workspace = none;
  runtime = Runtime.trpc framework;
  store = StoreKind.json_dir ".harness";
  trace_path = ".harness";
  run_record =
      first_record whole_floats around settled (with_dir whole_floats around options) "" ".harness";
  replay = replaying;
  sandbox = docker_box;
  replay_patch = [];
}

built : build whole_floats around settled options ≡ Built.ok made
unfolding build build_in open_store open_workspace harness_sandbox command_timeout new_sandbox
    build_tools new_runtime new_trpc build_replay whole_floats bytes_beq
built = refl

build-Confined_example :
    Made whole_floats around settled.sandbox made.sandbox
    × (names : List String) × (ts : List Tool) × (ts
        ≡ map Tool.file_tool names
          ++ shell_tool whole_floats around settled.tools.shell made.sandbox
              (root_of made.workspace))
    × (made.runtime ≡ runtime_for whole_floats settled ts)
unfolding sandbox_enabled
build-Confined_example =
    build-Confined whole_floats around is_duration settled options made settled-IsValid refl built

abbrev agent : Agent whole_floats
unfolding build_instruction gen_config
agent = record {
  name = "h0";
  model = LiveModel.openai "m";
  wrapper = some (record { workspace_root = []; temp_dir = bytes "/tmp" });
  instruction = build_instruction whole_floats settled none;
  generation = gen_config whole_floats settled;
  tools = tools;
  callbacks = some ReplayMode.strict;
}

agent_made : make_agent whole_floats framework (some replaying) [] [] none ≡ some agent
unfolding make_agent agent_on new_model around
agent_made = refl

-- The run that is replayed was recorded in the same directory.
abbrev earlier : Surroundings whole_floats
earlier = record around { fresh_id = "run-1" }

abbrev live_options : BuildOptions
live_options = record options { replay_from = "" }

abbrev recording : Harness whole_floats
recording = record made {
  run_id = "run-1";
  run_record =
      first_record whole_floats earlier settled (with_dir whole_floats earlier live_options) ""
        ".harness";
  replay =
      replay_config whole_floats earlier (with_dir whole_floats earlier live_options)
        ReplayMode.recording ".harness" "";
}

recorded : build whole_floats earlier settled live_options ≡ Built.ok recording
unfolding build build_in open_store open_workspace harness_sandbox command_timeout new_sandbox
    build_tools new_runtime new_trpc build_replay whole_floats bytes_beq around
recorded = refl

build-offline_example :
    (recording.replay.mode ≡ ReplayMode.recording)
    × (made.replay.store ≡ recording.replay.store)
    × (agent.callbacks ≡ some ReplayMode.strict)
    × (new_model whole_floats settled.model ≡ some agent.model)
    × (agent.wrapper ≡ (
        if options.replay_model
        then some (record {
          workspace_root = bytes (root_or_empty made.workspace);
          temp_dir = bytes "/tmp";
        })
        else none))
unfolding around
build-offline_example =
    build-offline whole_floats earlier around is_duration settled settled live_options options
      recording made framework [] [] none agent refl recorded refl refl refl (λ parts. refl)
      settled-IsValid built refl agent_made

-- A provider that the framework does not know.
abbrev other : String
other = "anthropic"

new_runtime-supported_example :
    (validate whole_floats is_duration (with_provider whole_floats other settled)
      ≡ Checked.passed (with_provider whole_floats other settled))
    × (new_runtime whole_floats around (with_provider whole_floats other settled) tools
        ≡ Built.ok (runtime_for whole_floats (with_provider whole_floats other settled) tools))
    × ((make_agent whole_floats
            (record { spec = with_provider whole_floats other settled; tools = tools })
            none
            []
            []
            none
          ≡ none)
        ↔ ((other == "openai" || other == "deepseek") ≡ false))
new_runtime-supported_example =
    new_runtime-supported whole_floats around is_duration settled tools none [] [] none other
      settled-IsValid refl

-- The sandbox and the recorder are released; the error of the recorder is reported.
abbrev outcome : Released whole_floats → Option String
outcome (Released.recorder_closed path) = some path
outcome _ = none

closed : close whole_floats outcome made ≡ ".harness" ∷ []
unfolding close released
closed = refl
