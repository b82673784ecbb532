-- ===== src/Reproduce/Tests.antt =====
-- internal/cli/reproduce.go: checks of recorded environments. Only the texts "old" and "" can be decoded.
use harnesslab.Reproduce.{
  EnvMode, parse_env_mode, Environment, zero_environment, items, env_from_json, check_environment,
  CheckError,
}
use harnesslab.Reproduce.Drift.{Agree, check_environment-strict}
use harnesslab.Shared.{
  String, ◌≡◌, ◌≢◌, ◌↔◌, refl, Option, none, some, All, if◌then◌else◌, ◌==◌, string_eq,
}

abbrev old : Environment
old = record zero_environment { goos = "linux"; goarch = "amd64"; git_version = "2.40" }

abbrev new : Environment
new = record zero_environment { goos = "linux"; goarch = "arm64"; go_version = "1.24" }

abbrev decode : String → Option Environment
decode text = if text == "old" then some old else none

drifted : (check_environment decode "old" "strict" new).1 ≡ some (CheckError.drift_detected 1)
unfolding check_environment
drifted = refl

undecoded : (check_environment decode "{" "warn" new).1 ≡ some CheckError.recorded_environment
unfolding check_environment
undecoded = refl

decoded : env_from_json decode "old" ≡ some old
unfolding env_from_json
decoded = refl

check_environment-strict_example :
    (parse_env_mode "strict" ≡ EnvMode.strict
      → ((check_environment decode "old" "strict" new).1 ≡ none) ↔ All Agree (items old new))
    × (parse_env_mode "strict" ≢ EnvMode.strict
        → (check_environment decode "old" "strict" new).1 ≡ none)
check_environment-strict_example = check_environment-strict decode "old" "strict" old new decoded
