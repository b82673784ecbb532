-- ===== src/Spec/Types.antt =====
-- internal/harness/spec/spec.go: the types of a specification. A Go map is the list of its entries.
use harnesslab.Shared.Float.{Floats}
use harnesslab.Shared.{ℕ, String, Bool, Option, List}

pub record CodexSpec : Type 0 where
  pub binary : String
  pub model : String
  pub sandbox : String
  pub ask_for_approval : String
  pub extra_args : List String
  pub env : List String

pub record RuntimeSpec : Type 0 where
  pub type : String
  pub version : String
  pub codex : CodexSpec

pub record AgentSpec : Type 0 where
  pub type : String
  pub name : String
  pub instruction : String

pub record SkillsSpec : Type 0 where
  pub enabled : Bool
  pub list : List String

pub record ToolsSpec : Type 0 where
  pub filesystem : Bool
  pub shell : Bool
  pub git : Bool
  pub search : Bool

pub record VerificationSpec : Type 0 where
  pub strategy : String
  pub commands : List String
  pub require_clean_git : Bool

pub record SuccessSpec : Type 0 where
  pub require_verification_pass : Option Bool
  pub require_workspace_change : Option Bool

pub record RetrySpec : Type 0 where
  pub max_model_errors : ℕ
  pub max_tool_errors : ℕ

pub record SandboxSpec : Type 0 where
  pub type : String
  pub network : String
  pub image : String
  pub timeout : String
  pub allowed_commands : List String
  pub denied_commands : List String

module _ (F : Floats) where
  open F use {Float}

  pub record ModelSpec : Type 0 where
    pub provider : String
    pub name : String
    pub temperature : Option Float

  pub record BudgetSpec : Type 0 where
    pub max_tokens : ℕ
    pub max_cost_usd : Float
    pub timeout : String

  pub record ModelPricing : Type 0 where
    pub input_per_million : Float
    pub output_per_million : Float

  abbrev pub PricingSpec : Type 0
  PricingSpec = List (String × List (String × ModelPricing))

  -- The planning and the context have a strategy as their only field.
  pub record HarnessSpec : Type 0 where
    pub version : String
    pub name : String
    pub runtime : RuntimeSpec
    pub agent : AgentSpec
    pub model : ModelSpec
    pub planning : String
    pub context : String
    pub skills : SkillsSpec
    pub tools : ToolsSpec
    pub verification : VerificationSpec
    pub success : SuccessSpec
    pub retry : RetrySpec
    pub sandbox : SandboxSpec
    pub budget : BudgetSpec
    pub pricing : PricingSpec
