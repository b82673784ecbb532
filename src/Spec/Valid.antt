-- ===== src/Spec/Valid.antt =====
-- internal/harness/spec/spec.go: what `Validate` promises of the specification that it passes.
use harnesslab.Spec.Types.{
  CodexSpec, RuntimeSpec, AgentSpec, ModelSpec, SandboxSpec, BudgetSpec, ModelPricing, PricingSpec,
  HarnessSpec,
}
use harnesslab.Spec.Validate.{
  SpecError, Checked, member, version_v1, runtimes, codex_sandboxes, codex_approvals, agents,
  plannings, contexts, verifications, sandboxes, networks, fits, settle_codex, settle_runtime,
  settle_agent, settle_sandbox, settle_model, negative, check_models, check_pricing, check_budget,
  validate,
}
use harnesslab.Spec.Choice.{
  Ensures, and_then-Ensures, Ensures-map, Ensures-passed, not_empty, choose-Ensures,
}
use harnesslab.Shared.Float.{Floats}
use harnesslab.Shared.{
  String, ◌≡◌, refl, Bool, true, false, List, [], ◌∷◌, ◌==◌, string_eq, All, Bool-cases, if-cases,
  inl, inr,
}

pub record IsCodex (c : CodexSpec) : Type 0 where
  pub sandbox : member codex_sandboxes c.sandbox ≡ true
  pub approval : member codex_approvals c.ask_for_approval ≡ true
  pub binary : (c.binary == "") ≡ false

pub record IsRuntime (r : RuntimeSpec) : Type 0 where
  pub type : member runtimes r.type ≡ true
  pub codex : (r.type == "codex") ≡ true → IsCodex r.codex

pub record IsAgent (a : AgentSpec) : Type 0 where
  pub type : member agents a.type ≡ true
  pub name : (a.name == "") ≡ false

pub record IsSandbox (is_duration : String → Bool) (b : SandboxSpec) : Type 0 where
  pub type : member sandboxes b.type ≡ true
  pub network : member networks b.network ≡ true
  pub timeout : fits is_duration b.timeout ≡ true
  pub image : (b.type == "docker") ≡ true → (b.image == "") ≡ false

settle_codex-IsCodex : (c : CodexSpec) → Ensures IsCodex (settle_codex c)
unfolding settle_codex
settle_codex-IsCodex c =
    and_then-Ensures
      (choose-Ensures "read-only" codex_sandboxes SpecError.unsupported_codex_sandbox c.sandbox
        refl)
      (λ sandbox p.
        and_then-Ensures
          (choose-Ensures "never" codex_approvals SpecError.unsupported_codex_approval
            c.ask_for_approval refl)
          (λ approval q.
            Ensures.holds
              (record { sandbox = p.0; approval = q.0; binary = not_empty "codex" c.binary refl })))

settle_runtime-IsRuntime : (r : RuntimeSpec) → Ensures IsRuntime (settle_runtime r)
unfolding settle_runtime
settle_runtime-IsRuntime r =
    and_then-Ensures (choose-Ensures "trpc" runtimes SpecError.unsupported_runtime r.type refl)
      (λ type p.
        if-cases (Ensures IsRuntime) (type == "codex")
          (λ e.
            and_then-Ensures (settle_codex-IsCodex r.codex)
              (λ codex q. Ensures.holds (record { type = p.0; codex = λ _. q })))
          (λ e. Ensures.holds (record { type = p.0; codex = λ k. cc (e, k) })))

settle_agent-IsAgent :
    (name : String) (a : AgentSpec) → (name == "") ≡ false → Ensures IsAgent (settle_agent name a)
unfolding settle_agent
settle_agent-IsAgent name a h =
    and_then-Ensures (choose-Ensures "coding" agents SpecError.unsupported_agent a.type refl)
      (λ type p. Ensures.holds (record { type = p.0; name = not_empty name a.name h }))

settle_sandbox-IsSandbox :
    (is_duration : String → Bool) (b : SandboxSpec)
    → Ensures (IsSandbox is_duration) (settle_sandbox is_duration b)
unfolding settle_sandbox
settle_sandbox-IsSandbox is_duration b =
    and_then-Ensures (choose-Ensures "none" sandboxes SpecError.unsupported_sandbox b.type refl)
      (λ type p. elim (Bool-cases (member networks b.network)) [
        | inr e ↦ rw e Ensures.refused
        | inl e ↦ elim (Bool-cases (fits is_duration b.timeout)) [
          | inr f ↦ rw (e, f) Ensures.refused
          | inl f ↦
              rw (e, f)
                (Ensures.holds (record {
                  type = p.0;
                  network = e;
                  timeout = f;
                  image = λ k. rw k (not_empty "alpine:latest" b.image refl);
                }))
        ]
      ])

module _ (F : Floats) where
  -- No price of the map is negative.
  abbrev pub IsPriced : PricingSpec F → Type 0
  IsPriced = All (λ entry. All (λ model. negative F model.1 ≡ false) entry.1)

  -- A specification with every default filled in and every setting supported.
  pub record IsValid (is_duration : String → Bool) (s : HarnessSpec F) : Type 0 where
    pub version : (s.version == version_v1) ≡ true
    pub name : (s.name == "") ≡ false
    pub runtime : IsRuntime s.runtime
    pub agent : IsAgent s.agent
    pub model : (s.model.name == "") ≡ false
    pub provider : (s.model.provider == "") ≡ false
    pub planning : member plannings s.planning ≡ true
    pub context : member contexts s.context ≡ true
    pub verification : member verifications s.verification.strategy ≡ true
    pub sandbox : IsSandbox is_duration s.sandbox
    pub budget : fits is_duration s.budget.timeout ≡ true
    pub pricing : IsPriced s.pricing

  abbrev IsModel : ModelSpec F → Type 0
  IsModel m = ((m.name == "") ≡ false) × ((m.provider == "") ≡ false)

  settle_model-IsModel : (m : ModelSpec F) → Ensures IsModel (settle_model F m)
  unfolding settle_model
  settle_model-IsModel m =
      if-cases (Ensures IsModel) (m.name == "") (λ _. Ensures.refused)
        (λ e. Ensures.holds (e, not_empty "openai" m.provider refl))

  check_models-All :
      (provider : String) (ps : List (String × ModelPricing F))
      → Ensures
          (λ (_ : Unit {0}). All (λ model. negative F model.1 ≡ false) ps)
          (check_models F provider ps)
  unfolding check_models
  check_models-All provider [] = Ensures.holds tt
  check_models-All provider ((model, p) ∷ ps) = elim (Bool-cases (negative F p)) [
    | inl e ↦ rw e Ensures.refused
    | inr e ↦ rw e (Ensures-map (λ _ h. (refl, h)) (check_models-All provider ps))
  ]

  check_pricing-IsPriced :
      (ps : PricingSpec F) → Ensures (λ (_ : Unit {0}). IsPriced ps) (check_pricing F ps)
  unfolding check_pricing
  check_pricing-IsPriced [] = Ensures.holds tt
  check_pricing-IsPriced ((provider, models) ∷ rest) =
      and_then-Ensures (check_models-All provider models)
        (λ _ h. Ensures-map (λ _ k. (h, k)) (check_pricing-IsPriced rest))

  check_budget-Ensures :
      (is_duration : String → Bool) (b : BudgetSpec F)
      → Ensures (λ (_ : Unit {0}). fits is_duration b.timeout ≡ true) (check_budget F is_duration b)
  unfolding check_budget
  check_budget-Ensures is_duration b = elim (Bool-cases (fits is_duration b.timeout)) [
    | inl e ↦ rw e (Ensures.holds refl)
    | inr e ↦ rw e Ensures.refused
  ]

  validate-Ensures :
      (is_duration : String → Bool) (s : HarnessSpec F)
      → Ensures (IsValid is_duration) (validate F is_duration s)
  unfolding validate
  validate-Ensures is_duration s = elim (Bool-cases (s.version == version_v1)) [
    | inr v ↦ rw v Ensures.refused
    | inl v ↦ elim (Bool-cases (s.name == "")) [
      | inl n ↦ rw (v, n) Ensures.refused
      | inr n ↦
          rw (v, n)
            (and_then-Ensures (settle_runtime-IsRuntime s.runtime) (λ _ runtime.
              and_then-Ensures (settle_agent-IsAgent s.name s.agent n) (λ _ agent.
                and_then-Ensures (settle_model-IsModel s.model) (λ _ model.
                  and_then-Ensures
                    (choose-Ensures "none" plannings SpecError.unsupported_planning s.planning refl)
                    (λ _ planning.
                      and_then-Ensures
                        (choose-Ensures "none" contexts SpecError.unsupported_context s.context
                          refl)
                        (λ _ context.
                          and_then-Ensures
                            (choose-Ensures "final" verifications SpecError.unsupported_verification
                              s.verification.strategy refl)
                            (λ _ strategy.
                              and_then-Ensures (settle_sandbox-IsSandbox is_duration s.sandbox)
                                (λ _ sandbox.
                                  and_then-Ensures (check_budget-Ensures is_duration s.budget)
                                    (λ _ budget.
                                      and_then-Ensures (check_pricing-IsPriced s.pricing)
                                        (λ _ pricing. Ensures.holds (record {
                                          version = v;
                                          name = n;
                                          runtime = runtime;
                                          agent = agent;
                                          model = model.0;
                                          provider = model.1;
                                          planning = planning.0;
                                          context = context.0;
                                          verification = strategy.0;
                                          sandbox = sandbox;
                                          budget = budget;
                                          pricing = pricing;
                                        })))))))))))
    ]
  ]

  -- Whatever specification `Validate` passes is valid: every required field is there, every default
  -- is filled in, every setting is a supported one, the timeouts are durations, and no price is
  -- negative.
  pub validate-IsValid :
      (is_duration : String → Bool) (s t : HarnessSpec F)
      → validate F is_duration s ≡ Checked.passed t
      → IsValid is_duration t
  validate-IsValid is_duration s t h = Ensures-passed (validate-Ensures is_duration s) h
