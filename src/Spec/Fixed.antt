-- ===== src/Spec/Fixed.antt =====
-- internal/harness/spec/spec.go: `Validate` on specifications that are already valid.
use harnesslab.Spec.Types.{
  CodexSpec, RuntimeSpec, AgentSpec, SandboxSpec, ModelPricing, PricingSpec, HarnessSpec,
}
use harnesslab.Spec.Validate.{
  SpecError, Checked, runtimes, codex_sandboxes, codex_approvals, agents, plannings, contexts,
  verifications, sandboxes, settle_codex, settle_runtime, settle_agent, settle_sandbox,
  settle_model, negative, check_models, check_pricing, check_budget, validate,
}
use harnesslab.Spec.Choice.{and_then-passed, choose-fixed}
use harnesslab.Spec.Valid.{
  IsCodex, IsRuntime, IsAgent, IsSandbox, IsPriced, IsValid, validate-IsValid,
}
use harnesslab.Shared.Float.{Floats}
use harnesslab.Shared.{
  String, ◌≡◌, refl, ◌∙◌, Bool, false, List, [], ◌∷◌, ◌==◌, string_eq, All, Bool-cases, inl, inr,
}

settle_codex-fixed : (c : CodexSpec) → IsCodex c → settle_codex c ≡ Checked.passed c
unfolding settle_codex
settle_codex-fixed c h =
    and_then-passed _ _ c.sandbox (
      choose-fixed "read-only" codex_sandboxes SpecError.unsupported_codex_sandbox c.sandbox refl
        h.sandbox)
    ∙ and_then-passed _ _ c.ask_for_approval (
        choose-fixed "never" codex_approvals SpecError.unsupported_codex_approval c.ask_for_approval
          refl h.approval)
    ∙ rw h.binary refl

settle_runtime-fixed : (r : RuntimeSpec) → IsRuntime r → settle_runtime r ≡ Checked.passed r
unfolding settle_runtime
settle_runtime-fixed r h =
    and_then-passed _ _ r.type
      (choose-fixed "trpc" runtimes SpecError.unsupported_runtime r.type refl h.type)
    ∙ elim (Bool-cases (r.type == "codex")) [
      | inl e ↦ rw e (and_then-passed _ _ r.codex (settle_codex-fixed r.codex (h.codex e)))
      | inr e ↦ rw e refl
    ]

settle_agent-fixed :
    (name : String) (a : AgentSpec) → IsAgent a → settle_agent name a ≡ Checked.passed a
unfolding settle_agent
settle_agent-fixed name a h =
    and_then-passed _ _ a.type
      (choose-fixed "coding" agents SpecError.unsupported_agent a.type refl h.type)
    ∙ rw h.name refl

settle_sandbox-fixed :
    (is_duration : String → Bool) (b : SandboxSpec)
    → IsSandbox is_duration b
    → settle_sandbox is_duration b ≡ Checked.passed b
unfolding settle_sandbox
settle_sandbox-fixed is_duration b h =
    and_then-passed _ _ b.type
      (choose-fixed "none" sandboxes SpecError.unsupported_sandbox b.type refl h.type)
    ∙ rw (h.network, h.timeout)
        (elim (Bool-cases (b.type == "docker")) [
          | inl e ↦ rw (e, h.image e) refl
          | inr e ↦ rw e refl
        ])

module _ (F : Floats) where
  check_models-fixed :
      (provider : String) (ps : List (String × ModelPricing F))
      → All (λ model. negative F model.1 ≡ false) ps
      → check_models F provider ps ≡ Checked.passed tt
  unfolding check_models
  check_models-fixed provider [] h = refl
  check_models-fixed provider ((model, p) ∷ ps) (e, h) = rw e (check_models-fixed provider ps h)

  check_pricing-fixed :
      (ps : PricingSpec F) → IsPriced F ps → check_pricing F ps ≡ Checked.passed tt
  unfolding check_pricing
  check_pricing-fixed [] h = refl
  check_pricing-fixed ((provider, models) ∷ rest) (e, h) =
      and_then-passed _ _ tt (check_models-fixed provider models e) ∙ check_pricing-fixed rest h

  -- A valid specification passes `Validate` unchanged.
  pub validate-fixed :
      (is_duration : String → Bool) (s : HarnessSpec F)
      → IsValid F is_duration s
      → validate F is_duration s ≡ Checked.passed s
  unfolding validate settle_model check_budget
  validate-fixed is_duration s h =
      rw (h.version, h.name)
        (and_then-passed _ _ s.runtime (settle_runtime-fixed s.runtime h.runtime)
          ∙ and_then-passed _ _ s.agent (settle_agent-fixed s.name s.agent h.agent)
          ∙ and_then-passed _ _ s.model (rw (h.model, h.provider) refl)
          ∙ and_then-passed _ _ s.planning (
              choose-fixed "none" plannings SpecError.unsupported_planning s.planning refl
                h.planning)
          ∙ and_then-passed _ _ s.context
              (choose-fixed "none" contexts SpecError.unsupported_context s.context refl h.context)
          ∙ and_then-passed _ _ s.verification.strategy (
              choose-fixed "final" verifications SpecError.unsupported_verification
                s.verification.strategy refl h.verification)
          ∙ and_then-passed _ _ s.sandbox (settle_sandbox-fixed is_duration s.sandbox h.sandbox)
          ∙ and_then-passed _ _ tt (rw h.budget refl)
          ∙ and_then-passed _ _ tt (check_pricing-fixed s.pricing h.pricing))

  -- Validating a second time changes nothing more.
  pub validate_idem :
      (is_duration : String → Bool) (s t : HarnessSpec F)
      → validate F is_duration s ≡ Checked.passed t
      → validate F is_duration t ≡ Checked.passed t
  validate_idem is_duration s t h =
      validate-fixed is_duration t (validate-IsValid F is_duration s t h)
