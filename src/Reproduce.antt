-- ===== src/Reproduce.antt =====
-- internal/reproduce/envcheck.go and checkEnvironment of internal/cli/reproduce.go: the environment of a
-- recorded run against the current one. The decoder of JSON and the current environment are parameters.
pub mod Drift
pub mod Lock
pub mod Bundle
mod Tests
use harnesslab.Shared.{
  ℕ, String, Bool, true, false, not, ◌||◌, Option, none, some, List, [], ◌∷◌, ◌==◌, nat_eq,
  string_eq, ltb, length, count, if◌then◌else◌,
}

pub data EnvMode : Type 0 where
  warn strict ignore : EnvMode

unfoldable pub parse_env_mode : String → EnvMode
parse_env_mode s =
    if s == "strict" then EnvMode.strict else if s == "ignore" then EnvMode.ignore else EnvMode.warn

pub record Environment : Type 0 where
  pub go_version : String
  pub goos : String
  pub goarch : String
  pub git_version : String
  pub trpc_agent_go : String
  pub harness_lab : String

abbrev pub zero_environment : Environment
zero_environment = record {
  go_version = "";
  goos = "";
  goarch = "";
  git_version = "";
  trpc_agent_go = "";
  harness_lab = "";
}

pub record EnvDiff : Type 0 where
  pub key : String
  pub recorded : String
  pub current : String
  pub matches : Bool

-- The table that `CompareEnv` walks through: a key, and its values on both sides.
abbrev pub items : Environment → Environment → List (String × String × String)
items recorded current =
    ("OS", recorded.goos, current.goos)
    ∷ ("Arch", recorded.goarch, current.goarch)
    ∷ ("Go", recorded.go_version, current.go_version)
    ∷ ("Git", recorded.git_version, current.git_version)
    ∷ ("HarnessLab", recorded.harness_lab, current.harness_lab)
    ∷ ("TRPCAgentGo", recorded.trpc_agent_go, current.trpc_agent_go)
    ∷ []

unfoldable pub compare_items : List (String × String × String) → List EnvDiff
compare_items [] = []
compare_items ((key, a, b) ∷ rest) =
    let diffs = compare_items rest in
    if a == "" || b == ""
    then diffs
    else record { key = key; recorded = a; current = b; matches = a == b } ∷ diffs

unfoldable pub compare_env : Environment → Environment → List EnvDiff
unfolding compare_items
compare_env recorded current = compare_items (items recorded current)

-- `EnvFromJSON`
unfoldable pub env_from_json : (String → Option Environment) → String → Option Environment
env_from_json decode data_text = if data_text == "" then some zero_environment else decode data_text

pub data CheckError : Type 0 where
  recorded_environment : CheckError
  drift_detected : ℕ → CheckError

-- What is printed.
pub data Printed : Type 0 where
  heading : Printed
  diff : EnvDiff → Printed
  drift : ℕ → Printed

abbrev pub CheckOutcome : Type 0
CheckOutcome = List Printed × Option CheckError

abbrev pub mismatches : List EnvDiff → ℕ
mismatches = count (λ d. not d.matches)

abbrev pub is_strict : EnvMode → Bool
is_strict EnvMode.strict = true
is_strict _ = false

abbrev pub printed_diffs : List EnvDiff → List Printed → List Printed
printed_diffs [] rest = rest
printed_diffs (d ∷ ds) rest = Printed.diff d ∷ printed_diffs ds rest

abbrev pub drift_verdict : EnvMode → List EnvDiff → CheckOutcome
drift_verdict mode diffs =
    let n = mismatches diffs in
    if ltb 0 n
    then if is_strict mode
      then (Printed.heading ∷ printed_diffs diffs [], some (CheckError.drift_detected n))
      else (Printed.heading ∷ printed_diffs diffs (Printed.drift n ∷ []), none)
    else (Printed.heading ∷ printed_diffs diffs [], none)

abbrev pub report_drift : EnvMode → List EnvDiff → CheckOutcome
report_drift mode [] = ([], none)
report_drift mode (d ∷ ds) = drift_verdict mode (d ∷ ds)

abbrev pub check_recorded : String → Option Environment → Environment → CheckOutcome
unfolding compare_env parse_env_mode
check_recorded mode none current = ([], some CheckError.recorded_environment)
check_recorded mode (some recorded) current =
    report_drift (parse_env_mode mode) (compare_env recorded current)

-- `checkEnvironment`; `current` is what `Capture` returns.
unfoldable pub check_environment :
    (String → Option Environment) → String → String → Environment → CheckOutcome
unfolding check_recorded env_from_json
check_environment decode recorded_env mode current =
    if mode == "ignore"
    then ([], none)
    else check_recorded mode (env_from_json decode recorded_env) current
