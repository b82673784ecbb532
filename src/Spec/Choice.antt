-- ===== src/Spec/Choice.antt =====
-- internal/harness/spec/spec.go: what a chain of checks and a `switch` over a setting give.
use harnesslab.Spec.Validate.{SpecError, Checked, and_then, member, or_default, choose}
use mathlib.Core.Path.{subst}
use text.Mathlib.TextEquality.{eq_iff}
use harnesslab.Shared.{
  String, ◌≡◌, refl, ap, true, false, List, ◌==◌, string_eq, Bool-cases, if-cases, inl, inr,
}

-- What holds of the value, if there is one.
pub data Ensures {ℓ κ} {A : Type ℓ} (P : A → Type κ) : Checked A → Type (ℓ ⊔ κ) where
  refused : {e : SpecError} → Ensures P (Checked.failed e)
  holds : {a : A} → P a → Ensures P (Checked.passed a)

value_or {ℓ} : {A : Type ℓ} → A → Checked A → A
value_or d (Checked.failed e) = d
value_or d (Checked.passed a) = a

pub Ensures-passed {ℓ κ} :
    {A : Type ℓ} {P : A → Type κ} {m : Checked A} {a : A} → Ensures P m → m ≡ Checked.passed a → P a
unfolding value_or
Ensures-passed Ensures.refused e = cc
Ensures-passed {P} (Ensures.holds {a} p) e = subst P (ap (value_or a) e) p

pub Ensures-map {ℓ κ μ} :
    {A : Type ℓ} {P : A → Type κ} {Q : A → Type μ} {m : Checked A}
    → ((a : A) → P a → Q a)
    → Ensures P m
    → Ensures Q m
Ensures-map f Ensures.refused = Ensures.refused
Ensures-map f (Ensures.holds {a} p) = Ensures.holds (f a p)

-- A link of a chain: what the first check ensures is there for the rest.
pub and_then-Ensures {ℓ κ μ} :
    {A B : Type ℓ} {P : B → Type κ} {Q : A → Type μ} {m : Checked A} {f : A → Checked B}
    → Ensures Q m
    → ((a : A) → Q a → Ensures P (f a))
    → Ensures P (and_then m f)
unfolding and_then
and_then-Ensures Ensures.refused k = Ensures.refused
and_then-Ensures (Ensures.holds {a} p) k = k a p

pub and_then-passed {ℓ} :
    {A B : Type ℓ} (m : Checked A) (f : A → Checked B) (a : A)
    → m ≡ Checked.passed a
    → and_then m f ≡ f a
unfolding and_then
and_then-passed m f a h = rw h refl

pub not_empty : (d v : String) → (d == "") ≡ false → (or_default d v == "") ≡ false
not_empty d v h = if-cases (λ (w : String). (w == "") ≡ false) (v == "") (λ _. h) (λ e. e)

-- The value `w` of the setting `v`.
abbrev pub Chosen : String → List String → String → String → Type 0
Chosen d allowed v w = (member allowed w ≡ true) × (w ≡ or_default d v)

-- A switch over a setting passes a supported value: the setting, or the default for an empty one.
pub choose-Ensures :
    (d : String) (allowed : List String) (err : String → SpecError) (v : String)
    → member allowed d ≡ true
    → Ensures (Chosen d allowed v) (choose d allowed err v)
unfolding choose
choose-Ensures d allowed err v k = elim (Bool-cases (v == "")) [
  | inl e ↦ rw e (Ensures.holds (k, rw e refl))
  | inr e ↦ elim (Bool-cases (member allowed v)) [
    | inl m ↦ rw (e, m) (Ensures.holds (m, rw e refl))
    | inr m ↦ rw (e, m) Ensures.refused
  ]
]

pub choose-fixed :
    (d : String) (allowed : List String) (err : String → SpecError) (v : String)
    → member allowed "" ≡ false
    → member allowed v ≡ true
    → choose d allowed err v ≡ Checked.passed v
unfolding choose
choose-fixed d allowed err v k m = elim (Bool-cases (v == "")) [
  | inl e ↦ cc (ap (member allowed) ((eq_iff v "").0 e), k, m)
  | inr e ↦ rw (e, m) refl
]
