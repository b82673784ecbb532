-- ===== src/Sandbox/Harness.antt =====
-- internal/harness/builder/builder.go: `newSandbox`, from the sandbox section of a harness
-- specification to the sandbox. `parse` is `time.ParseDuration`, which fails on some texts.
use harnesslab.Spec.Types.{SandboxSpec as SandboxSection, HarnessSpec}
use harnesslab.Spec.Validate.{Checked, validate, sandboxes, fits}
use harnesslab.Spec.Valid.{validate-IsValid}
use harnesslab.Sandbox.Backends.{SandboxSpec, Sandbox, Creation, new_sandbox}
use harnesslab.Shared.Text.{bytes_beq}
use text.Mathlib.TextEquality.{eq_iff}
use mathlib.Core.Path.{subst}
use harnesslab.Shared.Float.{Floats}
use harnesslab.Shared.{
  ℕ, String, ◌≡◌, inl, inr, refl, ap, sym, ◌∙◌, Bool, true, false, ◌&&◌, Option, none, some, map,
  Bytes, bytes, bytes_eq, string_eq, ◌==◌, if◌then◌else◌, In, find, Option-cases, Bool-cases, arith,
}

abbrev pub is_some : Option ℕ → Bool
is_some none = false
is_some (some n) = true

module _ (parse : String → Option ℕ) where
  -- No timeout is zero.
  unfoldable pub command_timeout : SandboxSection → Option ℕ
  command_timeout b = if b.timeout == "" then some 0 else parse b.timeout

  abbrev pub backend_spec : SandboxSection → ℕ → SandboxSpec
  backend_spec b timeout = record {
    type = bytes b.type;
    network = bytes b.network;
    image = bytes b.image;
    timeout = timeout;
    allowed_commands = map bytes b.allowed_commands;
    denied_commands = map bytes b.denied_commands;
  }

  abbrev pub with_timeout : Bytes → SandboxSection → Option ℕ → Option Creation
  with_timeout goos b none = none
  with_timeout goos b (some timeout) = some (new_sandbox goos (backend_spec b timeout))

  -- `newSandbox`; `none` is the error of the timeout.
  unfoldable pub harness_sandbox : Bytes → SandboxSection → Option Creation
  unfolding command_timeout
  harness_sandbox goos b = with_timeout goos b (command_timeout b)

  abbrev pub parses : String → Bool
  parses t = is_some (parse t)

-- The sandbox was created.
pub data IsCreated : Option Creation → Type 0 where
  made : (sb : Sandbox) → IsCreated (some (Creation.created sb))

-- bubblewrap is asked for where it does not exist.
abbrev pub impossible : Bytes → String → Bool
impossible goos type = type == "bwrap" && goos == bytes "windows"

new_sandbox-IsCreated :
    (goos : Bytes) (spec : SandboxSpec) (a : String)
    → spec.type ≡ bytes a
    → In a sandboxes
    → impossible goos a ≡ false
    → IsCreated (some (new_sandbox goos spec))
unfolding new_sandbox bytes_beq
new_sandbox-IsCreated goos spec a t (In.here e) w = rw (t ∙ ap bytes (sym e)) (IsCreated.made _)
new_sandbox-IsCreated goos spec a t (In.there (In.here e)) w =
    rw (t ∙ ap bytes (sym e)) (IsCreated.made _)
new_sandbox-IsCreated goos spec a t (In.there (In.there (In.here e))) w =
    rw (t ∙ ap bytes (sym e)) (IsCreated.made _)
new_sandbox-IsCreated goos spec a t (In.there (In.there (In.there (In.here e)))) w =
    rw (t ∙ ap bytes (sym e), rw (sym e) at w) (IsCreated.made _)
new_sandbox-IsCreated goos spec a t (In.there (In.there (In.there (In.there i)))) w = elim i [ ]

new_sandbox-not_on_windows :
    (goos : Bytes) (spec : SandboxSpec) (a : String)
    → spec.type ≡ bytes a
    → impossible goos a ≡ true
    → new_sandbox goos spec ≡ Creation.not_on_windows
unfolding new_sandbox bytes_beq
new_sandbox-not_on_windows goos spec a t w =
    let e : a ≡ "bwrap" = (eq_iff a "bwrap").0 (ground arith) in
    let g : (goos == bytes "windows") ≡ true = ground arith in rw (t ∙ ap bytes e, g) refl

command_timeout-parsed :
    (parse : String → Option ℕ) (b : SandboxSection)
    → fits (parses parse) b.timeout ≡ true
    → (n : ℕ) × (command_timeout parse b ≡ some n)
unfolding command_timeout
command_timeout-parsed parse b h = elim (Bool-cases (b.timeout == "")) [
  | inl e ↦ rw e (0, refl)
  | inr e ↦ elim (Option-cases (parse b.timeout)) [
    | inl f ↦ let no : false ≡ true = rw (e, f) at h in cc
    | inr (n, f) ↦ rw (e, f) (n, refl)
  ]
]

-- A harness specification that `Validate` accepts has a sandbox that can be built: `newSandbox` gives
-- one and no error, neither of the timeout nor of the type, unless the type is bwrap on Windows, and
-- there it gives the error that says so.
pub harness_sandbox-validated :
    (F : Floats) (parse : String → Option ℕ) (goos : Bytes) (s t : HarnessSpec F)
    → validate F (parses parse) s ≡ Checked.passed t
    → (impossible goos t.sandbox.type ≡ false → IsCreated (harness_sandbox parse goos t.sandbox))
      × (impossible goos t.sandbox.type ≡ true
          → harness_sandbox parse goos t.sandbox ≡ some Creation.not_on_windows)
unfolding harness_sandbox
harness_sandbox-validated F parse goos s t h =
    let b = t.sandbox in
    let ok = (validate-IsValid F (parses parse) s t h).sandbox in
    let (n, e) = command_timeout-parsed parse b ok.timeout in
    let (a, q, i) = find (λ a. b.type == a) sandboxes ok.type in
    let same : b.type ≡ a = (eq_iff b.type a).0 q in
    (
      λ w. rw e (
          new_sandbox-IsCreated goos (backend_spec parse b n) b.type refl
            (subst (λ x. In x sandboxes) (sym same) i) w),
      λ w. rw e (ap some (new_sandbox-not_on_windows goos (backend_spec parse b n) b.type refl w)),
    )
