-- ===== src/Builder/Tests.antt =====
-- internal/harness/builder/builder.go: a run with a failing verification command.
use harnesslab.Store.{failed, running, no_metrics, Run}
use harnesslab.Spec.Types.{VerificationSpec, SuccessSpec}
use harnesslab.Spec.Access.{require_verification, require_change}
use harnesslab.Builder.{
  SandboxResult, World, changed, new_verification, conclude, finish, is_passed, tally, count_tests,
}
use harnesslab.Builder.Tally.{is_error}
use harnesslab.Builder.Passing.{satisfied, conclude-passed}
use harnesslab.Builder.Agreement.{tally-Agrees}
use harnesslab.Trpc.Event.{Event, ObjectType}
use harnesslab.Trpc.Normalizer.{new_normalizer, normalize_all}
use harnesslab.Trpc.Agent.{run_framework_agent}
use harnesslab.Shared.Float.{whole_floats}
use harnesslab.Shared.{
  ℕ, ◌%◌, ◌^◌, String, ◌≡◌, refl, true, false, not, ◌&&◌, ◌||◌, none, some, [], ◌∷◌, bytes, any,
  ◌==◌, string_eq,
}

-- Only the tests fail.
abbrev sandbox : ℕ → String → SandboxResult
sandbox k cmd = record {
  exit_code = 1;
  output = bytes "--- FAIL: TestX\n  --- PASS: TestY";
  erred = cmd == "go test";
}

abbrev world : World whole_floats
world = record {
  stored = true;
  events = some [];
  sandbox = sandbox;
  diff = some (record { patch = bytes " \n"; stat = []; untracked = bytes "a.go" ∷ [] });
  was_cancelled = false;
  elapsed = 5;
  verify_elapsed = 2;
  finished = 9;
  cost = none;
}

abbrev verification : VerificationSpec
verification = record {
  strategy = "final";
  commands = "go vet" ∷ "go test" ∷ [];
  require_clean_git = false;
}

abbrev success : SuccessSpec
success = record { require_verification_pass = none; require_workspace_change = some true }

abbrev fresh : Run whole_floats
fresh = record {
  id = "r";
  task = "t";
  harness_version = "v";
  harness_name = "h";
  repository = "";
  commit = "";
  workspace = "";
  trace_path = "";
  started_at = 0;
  finished_at = 0;
  status = running;
  metrics = no_metrics whole_floats;
  spec_yaml = "";
  workspace_patch = [];
  verification = new_verification sandbox;
  environment = "";
}

test_counts : count_tests (bytes "--- FAIL: TestX\n  --- PASS: TestY") ≡ (1, 1)
unfolding count_tests
test_counts = refl

tests_fail : (conclude whole_floats world verification success [] fresh).status ≡ failed
unfolding conclude finish require_verification
tests_fail = refl

conclude-passed_example :
    is_passed (conclude whole_floats world verification success [] fresh).status ≡ (
      not false
      && not (any is_error [])
      && (not (require_verification (some success)) || satisfied sandbox verification)
      && (not (require_change (some success)) || changed world.diff))
conclude-passed_example = conclude-passed whole_floats world verification success [] fresh

abbrev clock : ℕ → ℕ
clock k = k

abbrev completion : Event
completion = record {
  error = none;
  object = ObjectType.chat_completion;
  model = bytes "m";
  choices = [];
  usage = some (record { prompt_tokens = 7; completion_tokens = 2 });
  is_done = true;
}

tally-Agrees_example :
    (let n = (normalize_all clock (completion ∷ []) (new_normalizer (bytes "r"), [])).0 in
      let (m, _) =
        tally whole_floats
          (run_framework_agent clock 1 9 (bytes "r") (some (completion ∷ [])))
          (no_metrics whole_floats, false) in
      (m.tool_calls ≡ n.tool_calls)
      × (m.input_tokens % 2 ^ 64 ≡ n.input_tokens)
      × (m.output_tokens % 2 ^ 64 ≡ n.output_tokens))
tally-Agrees_example = tally-Agrees whole_floats clock 1 9 (bytes "r") (completion ∷ [])
