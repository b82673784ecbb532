-- ===== src/Builder/Build/Confined.antt =====
-- internal/harness/builder/builder.go: where the commands of a harness with a sandbox run.
use harnesslab.Spec.Types.{HarnessSpec, SandboxSpec as SandboxSection}
use harnesslab.Spec.Validate.{sandboxes, member}
use harnesslab.Spec.Valid.{IsValid}
use harnesslab.Shared.Text.{bytes_beq}
use harnesslab.Sandbox.Backends.{Sandbox, SandboxSpec, Creation, new_sandbox}
use harnesslab.Sandbox.Harness.{harness_sandbox, command_timeout, backend_spec, with_timeout}
use harnesslab.Spec.Access.{sandbox_enabled}
use harnesslab.Workspace.{Instance}
use harnesslab.Trpc.Runtime.{Tool}
use harnesslab.Builder.Surroundings.{
  BuildOptions, Built, result_or, BuildError, Surroundings, root_of,
}
use harnesslab.Builder.Build.{
  Harness, sandbox_made, file_group, shell_group, build_tools, with_dir, build,
}
use harnesslab.Builder.Build.Supported.{runtime_for, new_runtime-valid}
use harnesslab.Builder.Build.Parts.{>>=-eq-ok, ok-eq-ok, build_in-Parts}
use harnesslab.Shared.Float.{Floats}
use mathlib.Core.Path.{subst}
use mathlib.Core.List.{append-nil}
use harnesslab.Shared.{
  ℕ, String, Bool, true, false, ◌≡◌, refl, sym, ap, ◌∙◌, Option, none, some, List, [], ◌∷◌, map,
  Bytes, bytes, bytes_eq, ◌==◌, string_eq, ◌++◌, if◌then◌else◌, In, find, arith,
}

-- The type of a sandbox, and the specification that it works by.
abbrev pub described : Sandbox → String × Option SandboxSpec
described (Sandbox.none_sandbox timeout) = ("none", none)
described (Sandbox.process_sandbox spec) = ("process", some spec)
described (Sandbox.docker_sandbox spec) = ("docker", some spec)
described (Sandbox.bwrap_sandbox spec) = ("bwrap", some spec)

abbrev Fits : String → SandboxSpec → Creation → Type 0
Fits type spec (Creation.created sb) = described sb ≡ (type, some spec)
Fits type spec _ = Unit

described-Fits :
    (sb : Sandbox) {a b : String} (spec : SandboxSpec)
    → described sb ≡ (b, some spec)
    → b ≡ a
    → Fits a spec (Creation.created sb)
described-Fits sb spec h e = h ∙ ap (λ x. (x, some spec)) e

unless_windows-Fits :
    (windows : Bool) (sb : Sandbox) {a : String} {spec : SandboxSpec}
    → Fits a spec (Creation.created sb)
    → Fits a spec (if windows then Creation.not_on_windows else Creation.created sb)
unless_windows-Fits true sb h = tt
unless_windows-Fits false sb h = h

new_sandbox-Fits :
    (goos : Bytes) (spec : SandboxSpec) (a : String)
    → spec.type ≡ bytes a
    → (a == "none") ≡ false
    → In a sandboxes
    → Fits a spec (new_sandbox goos spec)
unfolding new_sandbox bytes_beq
new_sandbox-Fits goos spec a t n (In.here e) =
    let no : true ≡ false = rw (sym e) at n in absurd (cc no)
new_sandbox-Fits goos spec a t n (In.there (In.here e)) =
    rw (t ∙ ap bytes (sym e)) (described-Fits (Sandbox.process_sandbox _) _ refl e)
new_sandbox-Fits goos spec a t n (In.there (In.there (In.here e))) =
    rw (t ∙ ap bytes (sym e)) (described-Fits (Sandbox.docker_sandbox _) _ refl e)
new_sandbox-Fits goos spec a t n (In.there (In.there (In.there (In.here e)))) =
    rw (t ∙ ap bytes (sym e)) (
      unless_windows-Fits (goos == bytes "windows") _
        (described-Fits (Sandbox.bwrap_sandbox _) _ refl e))
new_sandbox-Fits goos spec a t n (In.there (In.there (In.there (In.there i)))) = elim i [ ]

module _ (F : Floats) (e : Surroundings F) where
  -- The sandbox of a section: of its type, with its lists and its timeout.
  abbrev pub Made : SandboxSection → Sandbox → Type 0
  Made b sb =
      (timeout : ℕ) × (command_timeout e.parse_duration b ≡ some timeout)
      × (described sb ≡ (b.type, some (backend_spec e.parse_duration b timeout)))

  abbrev MadeIfOk : SandboxSection → Built Sandbox → Type 0
  MadeIfOk b (Built.ok sb) = Made b sb
  MadeIfOk b (Built.err _) = Unit

  sandbox_made-Made :
      (b : SandboxSection) (n : ℕ) (c : Creation)
      → command_timeout e.parse_duration b ≡ some n
      → Fits b.type (backend_spec e.parse_duration b n) c
      → MadeIfOk b (sandbox_made F e (some c))
  sandbox_made-Made b n (Creation.created sb) t h = (n, t, h)
  sandbox_made-Made b n Creation.not_on_windows t h = tt
  sandbox_made-Made b n (Creation.unsupported type) t h = tt

  with_timeout-Made :
      (b : SandboxSection) (o : Option ℕ)
      → command_timeout e.parse_duration b ≡ o
      → member sandboxes b.type ≡ true
      → sandbox_enabled b ≡ true
      → MadeIfOk b (sandbox_made F e (with_timeout e.parse_duration e.goos b o))
  unfolding sandbox_enabled
  with_timeout-Made b none t m on = tt
  with_timeout-Made b (some n) t m on =
      let (a, q, i) = find (λ a. b.type == a) sandboxes m in
      let same = (string_eq.decides b.type a).0 q in
      let apart : (b.type == "none") ≡ false = ground arith in
      sandbox_made-Made b n (new_sandbox e.goos (backend_spec e.parse_duration b n)) t (
        new_sandbox-Fits e.goos (backend_spec e.parse_duration b n) b.type refl apart
          (subst (λ x. In x sandboxes) (sym same) i))

  file_group-names :
      (dir : String) (b : Bool) (tools : List Tool)
      → file_group F e dir b ≡ Built.ok tools
      → (names : List String) × (tools ≡ map Tool.file_tool names)
  file_group-names dir false tools h = ([], sym (ok-eq-ok h))
  file_group-names dir true tools h =
      let (names, _, k) =
        >>=-eq-ok (result_or BuildError.file_tools_failed (e.file_tools dir)) _ h in
      (names, sym (ok-eq-ok k))

  -- The tool for commands, if the section of the tools asks for it.
  abbrev pub shell_tool : Bool → Sandbox → String → List Tool
  shell_tool b sb dir = if b then Tool.sandbox_shell sb dir ∷ [] else []

  shell_group-tools :
      (dir : String) (sb : Sandbox) (b : Bool) (files tools : List Tool)
      → shell_group F e dir sb b true files ≡ Built.ok tools
      → tools ≡ files ++ shell_tool b sb dir
  shell_group-tools dir sb false files tools h = sym (ok-eq-ok h) ∙ sym (append-nil files)
  shell_group-tools dir sb true files tools h = sym (ok-eq-ok h)

  build_tools-tools :
      (s : HarnessSpec F) (ws : Option Instance) (sb : Sandbox) (tools : List Tool)
      → sandbox_enabled s.sandbox ≡ true
      → build_tools F e s ws sb ≡ Built.ok tools
      → (names : List String) × (tools
          ≡ map Tool.file_tool names ++ shell_tool s.tools.shell sb (root_of ws))
  unfolding build_tools
  build_tools-tools s ws sb tools on h =
      let (files, f, k) = >>=-eq-ok (file_group F e (root_of ws) s.tools.filesystem) _ h in
      let (names, g) = file_group-names (root_of ws) s.tools.filesystem files f in
      (
        names,
        shell_group-tools (root_of ws) sb s.tools.shell files tools
              (ap (λ b. shell_group F e (root_of ws) sb s.tools.shell b files) (sym on) ∙ k)
            ∙ ap (λ x. x ++ shell_tool s.tools.shell sb (root_of ws)) g,
      )

  -- If the sandbox of a valid specification is switched on, then a harness that `Build` makes has the sandbox
  -- of the type that is asked for, process, docker or bwrap, with the lists of commands and the timeout of the
  -- specification; and its runtime is codex or that of the framework, as the specification asks, which gets
  -- file tools and, if the shell is asked for, one tool more, which runs commands in that sandbox: none runs
  -- them in a shell of the host that is outside of it.
  pub build-Confined :
      (is_duration : String → Bool) (s : HarnessSpec F) (o : BuildOptions) (h : Harness F)
      → IsValid F is_duration s
      → sandbox_enabled s.sandbox ≡ true
      → build F e s o ≡ Built.ok h
      → Made s.sandbox h.sandbox
        × (names : List String) × (tools : List Tool) × (tools
            ≡ map Tool.file_tool names ++ shell_tool s.tools.shell h.sandbox (root_of h.workspace))
        × (h.runtime ≡ runtime_for F s tools)
  unfolding build harness_sandbox
  build-Confined is_duration s o h valid on built =
      let p = build_in-Parts F e s (with_dir F e o) h built in
      let (names, tools) = build_tools-tools s h.workspace h.sandbox p.tools on p.tools_made in
      (
        subst (MadeIfOk s.sandbox) p.sandbox (
            with_timeout-Made s.sandbox (command_timeout e.parse_duration s.sandbox) refl
              valid.sandbox.type on),
        names,
        p.tools,
        tools,
        sym (ok-eq-ok (sym (new_runtime-valid F e is_duration s p.tools valid) ∙ p.runtime)),
      )
