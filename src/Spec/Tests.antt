-- ===== src/Spec/Tests.antt =====
-- internal/harness/spec/spec.go: runs of `Validate`. A text is a duration here if it is "30s".
use harnesslab.Spec.Types.{ModelPricing, HarnessSpec}
use harnesslab.Spec.Validate.{Checked, SpecError, and_then, choose, validate}
use harnesslab.Spec.Valid.{IsValid, IsPriced, validate-IsValid}
use harnesslab.Spec.Access.{model_price}
use harnesslab.Sandbox.Backends.{Creation}
use harnesslab.Sandbox.Harness.{
  parses, harness_sandbox, impossible, IsCreated, harness_sandbox-validated,
}
use harnesslab.Shared.Float.{whole_floats}
use harnesslab.Shared.{
  ℕ, String, Bool, true, false, ◌≡◌, refl, Option, bytes, if◌then◌else◌, none, some, [], ◌∷◌, ◌==◌,
  string_eq,
}

abbrev pub is_duration : String → Bool
is_duration t = t == "30s"

abbrev pub price : ℕ → ModelPricing whole_floats
unfolding whole_floats
price n = record { input_per_million = n; output_per_million = n }

abbrev pub minimal : HarnessSpec whole_floats
unfolding whole_floats
minimal = record {
  version = "harnesslab/v1";
  name = "h0";
  runtime = record {
    type = "";
    version = "";
    codex = record {
      binary = "";
      model = "";
      sandbox = "";
      ask_for_approval = "";
      extra_args = [];
      env = [];
    };
  };
  agent = record { type = ""; name = ""; instruction = "" };
  model = record { provider = ""; name = "m"; temperature = none };
  planning = "";
  context = "";
  skills = record { enabled = false; list = [] };
  tools = record { filesystem = true; shell = true; git = false; search = false };
  verification = record { strategy = ""; commands = []; require_clean_git = false };
  success = record { require_verification_pass = none; require_workspace_change = none };
  retry = record { max_model_errors = 0; max_tool_errors = 0 };
  sandbox = record {
    type = "docker";
    network = "";
    image = "";
    timeout = "30s";
    allowed_commands = [];
    denied_commands = [];
  };
  budget = record { max_tokens = 0; max_cost_usd = 0; timeout = "" };
  pricing = ("p", ("m", price 3) ∷ ("*", price 1) ∷ []) ∷ [];
}

abbrev pub settled : HarnessSpec whole_floats
settled = record minimal {
  runtime = record minimal.runtime { type = "trpc" };
  agent = record { type = "coding"; name = "h0"; instruction = "" };
  model = record minimal.model { provider = "openai" };
  planning = "none";
  context = "none";
  verification = record minimal.verification { strategy = "final" };
  sandbox = record minimal.sandbox { type = "docker"; image = "alpine:latest" };
}

minimal_passes : validate whole_floats is_duration minimal ≡ Checked.passed settled
unfolding validate and_then choose whole_floats
minimal_passes = refl

unknown_planning :
    validate whole_floats is_duration (record minimal { planning = "wish" })
    ≡ Checked.failed (SpecError.unsupported_planning "wish")
unfolding validate and_then choose whole_floats
unknown_planning = refl

pub settled-IsValid : IsValid whole_floats is_duration settled
settled-IsValid = validate-IsValid whole_floats is_duration minimal settled minimal_passes

validate-IsValid_example : IsValid whole_floats is_duration settled
validate-IsValid_example = validate-IsValid whole_floats is_duration minimal settled minimal_passes

minimal-IsPriced : IsPriced whole_floats minimal.pricing
unfolding whole_floats
minimal-IsPriced = ((refl, (refl, tt)), tt)

fallback_price : model_price whole_floats minimal.pricing "p" "other" ≡ some (price 1)
unfolding model_price whole_floats
fallback_price = refl

abbrev pub thirty : String → Option ℕ
thirty t = if t == "30s" then some 30 else none

minimal_accepted : validate whole_floats (parses thirty) minimal ≡ Checked.passed settled
unfolding validate and_then choose whole_floats
minimal_accepted = refl

harness_sandbox-validated_example :
    (impossible (bytes "linux") settled.sandbox.type ≡ false
      → IsCreated (harness_sandbox thirty (bytes "linux") settled.sandbox))
    × (impossible (bytes "linux") settled.sandbox.type ≡ true
        → harness_sandbox thirty (bytes "linux") settled.sandbox ≡ some Creation.not_on_windows)
harness_sandbox-validated_example =
    harness_sandbox-validated whole_floats thirty (bytes "linux") minimal settled minimal_accepted
