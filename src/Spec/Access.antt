-- ===== src/Spec/Access.antt =====
-- internal/harness/spec/spec.go and internal/cost/cost.go: what the other components read of a
-- specification, and the cost of a run. The products and sums of float64 are parameters: `per_million
-- n p` is `float64(n) / 1e6 * p`.
use mathlib.Core.Path.{subst}
use mathlib.Core.Option.{some-injective}
use harnesslab.Spec.Types.{SuccessSpec, ToolsSpec, SandboxSpec, ModelPricing, PricingSpec}
use harnesslab.Spec.Valid.{IsPriced}
use harnesslab.Spec.Validate.{negative}
use harnesslab.Shared.Float.{Floats}
use harnesslab.Shared.{
  ℕ, String, ◌≡◌, refl, ◌∙◌, Bool, true, false, ◌||◌, not, ◌&&◌, Option, none, some, List, [], ◌∷◌,
  ◌==◌, string_eq, if◌then◌else◌, All, Bool-cases, inl, inr,
}

-- `*p`, and the default for a pointer that is nil.
abbrev or_unset : Bool → Option Bool → Bool
or_unset d none = d
or_unset d (some b) = b

unfoldable pub require_verification : Option SuccessSpec → Bool
require_verification none = true
require_verification (some s) = or_unset true s.require_verification_pass

unfoldable pub require_change : Option SuccessSpec → Bool
require_change none = false
require_change (some s) = or_unset false s.require_workspace_change

abbrev given : Option Bool → Bool
given none = false
given (some b) = true

unfoldable pub is_set : Option SuccessSpec → Bool
is_set none = false
is_set (some s) = given s.require_verification_pass || given s.require_workspace_change

unfoldable pub sandbox_enabled : SandboxSpec → Bool
sandbox_enabled s = not (s.type == "") && not (s.type == "none")

unfoldable pub tools_enabled : ToolsSpec → Bool
tools_enabled t = t.filesystem || t.shell || t.git || t.search

-- A Go map from strings: the entry of the key, if there is one.
abbrev pub at {ℓ} : {A : Type ℓ} → String → List (String × A) → Option A
at key [] = none
at key ((k, v) ∷ rest) = if k == key then some v else at key rest

module _ (F : Floats) where
  open F use {Float, flt}

  abbrev pub model_entry : String → List (String × ModelPricing F) → Option (ModelPricing F)
  model_entry model models = elim (at model models) [ some p ↦ some p | none ↦ at "*" models ]

  unfoldable pub model_price : PricingSpec F → String → String → Option (ModelPricing F)
  model_price pricing provider model = elim (at provider pricing) [
    | none ↦ none
    | some models ↦ model_entry model models
  ]

  module _ (per_million : ℕ → Float → Float) (add : Float → Float → Float) where
    abbrev cost_of : Option (ModelPricing F) → ℕ → ℕ → Float
    cost_of none inputs outputs = F.zero
    cost_of (some p) inputs outputs =
        add (per_million inputs p.input_per_million) (per_million outputs p.output_per_million)

    -- `Calculate`
    unfoldable pub calculate : PricingSpec F → String → String → ℕ → ℕ → Float
    unfolding model_price
    calculate [] provider model inputs outputs = F.zero
    calculate pricing provider model inputs outputs =
        cost_of (model_price pricing provider model) inputs outputs

  at-All :
      {A : Type 0} (P : A → Type 0) (key : String) (entries : List (String × A))
      → All (λ e. P e.1) entries
      → {v : A} → at key entries ≡ some v
      → P v
  at-All P key [] h e = cc
  at-All P key ((k, v) ∷ rest) (p, h) e = elim (Bool-cases (k == key)) [
    | inl m ↦ subst P (some-injective _ _ (rw m at e)) p
    | inr m ↦ at-All P key rest h (rw m at e)
  ]

  model_entry-fair :
      (model : String) (models : List (String × ModelPricing F))
      → All (λ e. negative F e.1 ≡ false) models
      → {p : ModelPricing F} → model_entry model models ≡ some p
      → negative F p ≡ false
  model_entry-fair model models h {p} e = decide (at model models) refl e
    where
      decide :
          (found : Option (ModelPricing F))
          → at model models ≡ found
          → (elim found [ some q ↦ some q | none ↦ at "*" models ]) ≡ some p
          → negative F p ≡ false
      decide none d e = at-All (λ q. negative F q ≡ false) "*" models h e
      decide (some q) d e = at-All (λ r. negative F r ≡ false) model models h (d ∙ e)

  -- Every price that a priced specification resolves is not negative, whether it is the model's own
  -- or the provider's default.
  pub model_price-fair :
      (pricing : PricingSpec F) (provider model : String) (p : ModelPricing F)
      → IsPriced F pricing
      → model_price pricing provider model ≡ some p
      → negative F p ≡ false
  unfolding model_price
  model_price-fair pricing provider model p h e = decide (at provider pricing) refl e
    where
      decide :
          (found : Option (List (String × ModelPricing F)))
          → at provider pricing ≡ found
          → (elim found [ none ↦ none | some models ↦ model_entry model models ]) ≡ some p
          → negative F p ≡ false
      decide none d e = cc
      decide (some models) d e =
          model_entry-fair model models
            (at-All (All (λ q. negative F q.1 ≡ false)) provider pricing h d) e
