-- ===== src/Builder/Build/Supported.antt =====
-- internal/harness/builder/builder.go and internal/runtime/trpc/runtime.go: which valid specifications have a
-- runtime, and which of these have a model.
use harnesslab.Spec.Types.{HarnessSpec}
use harnesslab.Spec.Validate.{runtimes, Checked, validate}
use harnesslab.Spec.Fixed.{validate-fixed}
use harnesslab.Spec.Valid.{IsValid}
use harnesslab.Trpc.Instruction.{Node}
use harnesslab.Trpc.Runtime.{
  Tool, ReplayConfig, TrpcRuntime, LiveModel, new_trpc, new_model, agent_on, make_agent,
}
use harnesslab.Codex.{new_codex}
use harnesslab.Builder.Surroundings.{Built, Surroundings}
use harnesslab.Builder.Build.{Runtime, new_runtime}
use harnesslab.Shared.Float.{Floats}
use harnesslab.Shared.{
  String, Bool, false, ◌||◌, ◌≡◌, ◌↔◌, refl, sym, ap, ◌∙◌, Option, none, some, List, Bytes, ◌==◌,
  string_eq, if◌then◌else◌, In, find, Bool-cases, inl, inr,
}

module _ (F : Floats) where
  -- The runtime of a specification: for codex the specification, otherwise it with the tools.
  abbrev pub runtime_for : HarnessSpec F → List Tool → Runtime F
  runtime_for s tools =
      if s.runtime.type == "codex"
      then Runtime.codex s
      else Runtime.trpc (record { spec = s; tools = tools })

  new_runtime-listed :
      (e : Surroundings F) (s : HarnessSpec F) (tools : List Tool) (a : String)
      → s.runtime.type ≡ a
      → In a runtimes
      → new_runtime F e s tools ≡ Built.ok (runtime_for s tools)
  unfolding new_runtime new_trpc new_codex
  new_runtime-listed e s tools a t (In.here x) =
      let q = t ∙ sym x in
      let is = λ (k : String). ap (λ v. v == k) q in rw (is "", is "trpc", is "codex") refl
  new_runtime-listed e s tools a t (In.there (In.here x)) =
      let q = t ∙ sym x in
      let is = λ (k : String). ap (λ v. v == k) q in rw (is "", is "trpc", is "codex") refl
  new_runtime-listed e s tools a t (In.there (In.there i)) = elim i [ ]

  agent_on-none :
      (r : TrpcRuntime F) (cfg : Option ReplayConfig) (root temp : Bytes) (tree : Option Node)
      (m : Option LiveModel)
      → (agent_on F r cfg root temp tree m ≡ none) ↔ (m ≡ none)
  unfolding agent_on
  agent_on-none r cfg root temp tree none = (λ h. refl, λ h. refl)
  agent_on-none r cfg root temp tree (some m) = (λ h. cc h, λ h. absurd (cc h))

  new_model-none :
      (s : HarnessSpec F)
      → (new_model F s.model ≡ none)
        ↔ ((s.model.provider == "openai" || s.model.provider == "deepseek") ≡ false)
  unfolding new_model
  new_model-none s = elim (Bool-cases (s.model.provider == "openai")) [
    | inl a ↦ rw a (λ h. absurd (cc h), λ h. absurd (cc h))
    | inr a ↦ elim (Bool-cases (s.model.provider == "deepseek")) [
      | inl b ↦ rw (a, b) (λ h. absurd (cc h), λ h. absurd (cc h))
      | inr b ↦ rw (a, b) (λ h. refl, λ h. refl)
    ]
  ]

  pub new_runtime-valid :
      (e : Surroundings F) (is_duration : String → Bool) (s : HarnessSpec F) (tools : List Tool)
      → IsValid F is_duration s
      → new_runtime F e s tools ≡ Built.ok (runtime_for s tools)
  new_runtime-valid e is_duration s tools valid =
      let (a, q, i) = find (λ a. s.runtime.type == a) runtimes valid.runtime.type in
      new_runtime-listed e s tools a ((string_eq.decides s.runtime.type a).0 q) i

  abbrev framework_or : TrpcRuntime F → Runtime F → TrpcRuntime F
  framework_or d (Runtime.trpc r) = r
  framework_or d (Runtime.codex s) = d

  -- A runtime of the framework has the specification and the tools that it was made with.
  pub runtime_for-framework :
      (s : HarnessSpec F) (tools : List Tool) (r : TrpcRuntime F)
      → runtime_for s tools ≡ Runtime.trpc r
      → record { spec = s; tools = tools } ≡ r
  runtime_for-framework s tools r h = elim (Bool-cases (s.runtime.type == "codex")) [
    | inl c ↦ let no : Runtime.codex s ≡ Runtime.trpc r = rw c at h in absurd (cc no)
    | inr c ↦
        let same : Runtime.trpc (record { spec = s; tools = tools }) ≡ Runtime.trpc r = rw c at h in
        ap (framework_or r) same
  ]

  abbrev pub with_provider : String → HarnessSpec F → HarnessSpec F
  with_provider p s = record s { model = record s.model { provider = p } }

  with_provider-IsValid :
      (is_duration : String → Bool) (p : String) (s : HarnessSpec F)
      → (p == "") ≡ false
      → IsValid F is_duration s
      → IsValid F is_duration (with_provider p s)
  with_provider-IsValid is_duration p s n valid = record {
    version = valid.version;
    name = valid.name;
    runtime = valid.runtime;
    agent = valid.agent;
    model = valid.model;
    provider = n;
    planning = valid.planning;
    context = valid.context;
    verification = valid.verification;
    sandbox = valid.sandbox;
    budget = valid.budget;
    pricing = valid.pricing;
  }

  -- A valid specification stays valid with any name of a provider that is not empty: `Validate` passes it
  -- unchanged, and the builder gives it its runtime, codex if it asks for that and otherwise the framework's
  -- with the tools. But the framework's agent can be made for it exactly if that name is openai or deepseek.
  pub new_runtime-supported :
      (e : Surroundings F) (is_duration : String → Bool) (s : HarnessSpec F) (tools : List Tool)
      (cfg : Option ReplayConfig) (root temp : Bytes) (tree : Option Node) (p : String)
      → IsValid F is_duration s
      → (p == "") ≡ false
      → (validate F is_duration (with_provider p s) ≡ Checked.passed (with_provider p s))
        × (new_runtime F e (with_provider p s) tools
            ≡ Built.ok (runtime_for (with_provider p s) tools))
        × ((make_agent F (record { spec = with_provider p s; tools = tools }) cfg root temp tree
              ≡ none)
            ↔ ((p == "openai" || p == "deepseek") ≡ false))
  unfolding make_agent
  new_runtime-supported e is_duration s tools cfg root temp tree p valid n =
      let t = with_provider p s in
      let t_valid = with_provider-IsValid is_duration p s n valid in
      let agent =
        agent_on-none (record { spec = t; tools = tools }) cfg root temp tree
          (new_model F t.model) in
      let model = new_model-none t in
      (
        validate-fixed F is_duration t t_valid,
        new_runtime-valid e is_duration t tools t_valid,
        (λ h. model.0 (agent.0 h), λ h. agent.1 (model.1 h)),
      )
