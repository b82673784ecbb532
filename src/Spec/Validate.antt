-- ===== src/Spec/Validate.antt =====
-- internal/harness/spec/spec.go: `Validate`. It fills defaults in as it goes; a specification that it
-- refuses is thrown away by its caller, so that the result is an error or the specification filled
-- in. `is_duration` tells whether `time.ParseDuration` accepts a text.
use harnesslab.Spec.Types.{
  CodexSpec, RuntimeSpec, AgentSpec, ModelSpec, SandboxSpec, BudgetSpec, ModelPricing, PricingSpec,
  HarnessSpec,
}
use harnesslab.Shared.Float.{Floats}
use harnesslab.Shared.{String, Bool, not, ◌||◌, List, [], ◌∷◌, ◌==◌, string_eq, if◌then◌else◌, any}

pub data SpecError : Type 0 where
  unsupported_version unsupported_runtime unsupported_codex_sandbox unsupported_codex_approval
        unsupported_agent unsupported_planning unsupported_context unsupported_verification
        unsupported_sandbox unsupported_network bad_sandbox_timeout bad_budget_timeout :
      String → SpecError
  missing_name missing_model : SpecError
  negative_price : String → String → SpecError

-- A value, or the error with which `Validate` returns.
pub data Checked {ℓ} (A : Type ℓ) : Type ℓ where
  failed : SpecError → Checked A
  passed : A → Checked A

unfoldable pub and_then {ℓ κ} : {A : Type ℓ} {B : Type κ} → Checked A → (A → Checked B) → Checked B
and_then (Checked.failed e) f = Checked.failed e
and_then (Checked.passed a) f = f a

abbrev pub member : List String → String → Bool
member allowed v = any (λ a. v == a) allowed

abbrev pub or_default : String → String → String
or_default d v = if v == "" then d else v

-- A `switch` over a setting: a default for the empty text, the supported values, and an error.
unfoldable pub choose : String → List String → (String → SpecError) → String → Checked String
choose d allowed err v =
    if v == ""
    then Checked.passed d
    else if member allowed v
    then Checked.passed v
    else Checked.failed (err v)

-- The supported values.
abbrev pub version_v1 : String
version_v1 = "harnesslab/v1"

abbrev pub runtimes : List String
runtimes = "trpc" ∷ "codex" ∷ []

abbrev pub codex_sandboxes : List String
codex_sandboxes = "read-only" ∷ "workspace-write" ∷ "danger-full-access" ∷ []

abbrev pub codex_approvals : List String
codex_approvals = "never" ∷ "on-request" ∷ "on-failure" ∷ []

abbrev pub agents : List String
agents = "coding" ∷ []

abbrev pub plannings : List String
plannings = "none" ∷ "todo" ∷ []

abbrev pub contexts : List String
contexts = "none" ∷ "repo-map" ∷ []

abbrev pub verifications : List String
verifications = "none" ∷ "final" ∷ "incremental" ∷ "test-first" ∷ []

abbrev pub sandboxes : List String
sandboxes = "none" ∷ "process" ∷ "docker" ∷ "bwrap" ∷ []

abbrev pub networks : List String
networks = "" ∷ "restricted" ∷ "allowlist" ∷ "none" ∷ []

unfoldable pub settle_codex : CodexSpec → Checked CodexSpec
unfolding choose
settle_codex c =
    and_then (choose "read-only" codex_sandboxes SpecError.unsupported_codex_sandbox c.sandbox)
      (λ sandbox.
        and_then
          (choose "never" codex_approvals SpecError.unsupported_codex_approval c.ask_for_approval)
          (λ approval. Checked.passed (record c {
            sandbox = sandbox;
            ask_for_approval = approval;
            binary = or_default "codex" c.binary;
          })))

unfoldable pub settle_runtime : RuntimeSpec → Checked RuntimeSpec
unfolding settle_codex
settle_runtime r = and_then (choose "trpc" runtimes SpecError.unsupported_runtime r.type) (λ type.
    if type == "codex"
    then and_then (settle_codex r.codex)
        (λ codex. Checked.passed (record r { type = type; codex = codex }))
    else Checked.passed (record r { type = type }))

unfoldable pub settle_agent : String → AgentSpec → Checked AgentSpec
unfolding choose
settle_agent name a =
    and_then (choose "coding" agents SpecError.unsupported_agent a.type)
      (λ type. Checked.passed (record a { type = type; name = or_default name a.name }))

module _ (is_duration : String → Bool) where
  -- A timeout is absent or a duration.
  abbrev pub fits : String → Bool
  fits t = t == "" || is_duration t

  unfoldable pub settle_sandbox : SandboxSpec → Checked SandboxSpec
  unfolding choose
  settle_sandbox b =
      and_then (choose "none" sandboxes SpecError.unsupported_sandbox b.type) (λ type.
        if not (member networks b.network)
        then Checked.failed (SpecError.unsupported_network b.network)
        else if not (fits b.timeout)
        then Checked.failed (SpecError.bad_sandbox_timeout b.timeout)
        else Checked.passed (record b {
          type = type;
          image = if type == "docker" then or_default "alpine:latest" b.image else b.image;
        }))

module _ (F : Floats) where
  open F use {flt}

  unfoldable pub settle_model : ModelSpec F → Checked (ModelSpec F)
  settle_model m =
      if m.name == ""
      then Checked.failed SpecError.missing_model
      else Checked.passed (record m { provider = or_default "openai" m.provider })

  abbrev pub negative : ModelPricing F → Bool
  negative p = flt p.input_per_million F.zero || flt p.output_per_million F.zero

  unfoldable pub check_models : String → List (String × ModelPricing F) → Checked (Unit {0})
  check_models provider [] = Checked.passed tt
  check_models provider ((model, p) ∷ ps) =
      if negative p
      then Checked.failed (SpecError.negative_price provider model)
      else check_models provider ps

  unfoldable pub check_pricing : PricingSpec F → Checked (Unit {0})
  unfolding check_models
  check_pricing [] = Checked.passed tt
  check_pricing ((provider, models) ∷ rest) =
      and_then (check_models provider models) (λ _. check_pricing rest)

  unfoldable pub check_budget : (String → Bool) → BudgetSpec F → Checked (Unit {0})
  check_budget is_duration b =
      if fits is_duration b.timeout
      then Checked.passed tt
      else Checked.failed (SpecError.bad_budget_timeout b.timeout)

  unfoldable pub validate : (String → Bool) → HarnessSpec F → Checked (HarnessSpec F)
  unfolding settle_runtime settle_agent settle_model settle_sandbox check_budget check_pricing
  validate is_duration s =
      if not (s.version == version_v1)
      then Checked.failed (SpecError.unsupported_version s.version)
      else if s.name == ""
      then Checked.failed SpecError.missing_name
      else and_then (settle_runtime s.runtime) (λ runtime.
        and_then (settle_agent s.name s.agent) (λ agent. and_then (settle_model s.model) (λ model.
          and_then (choose "none" plannings SpecError.unsupported_planning s.planning) (λ planning.
            and_then (choose "none" contexts SpecError.unsupported_context s.context) (λ context.
              and_then
                (choose "final" verifications SpecError.unsupported_verification
                  s.verification.strategy)
                (λ strategy. and_then (settle_sandbox is_duration s.sandbox) (λ sandbox.
                  and_then (check_budget is_duration s.budget) (λ _.
                    and_then (check_pricing s.pricing) (λ _. Checked.passed (record s {
                      runtime = runtime;
                      agent = agent;
                      model = model;
                      planning = planning;
                      context = context;
                      verification = record s.verification { strategy = strategy };
                      sandbox = sandbox;
                    }))))))))))
