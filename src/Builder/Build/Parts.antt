-- ===== src/Builder/Build/Parts.antt =====
-- internal/harness/builder/builder.go: the steps of a `Build` that succeeds.
use harnesslab.Spec.Types.{HarnessSpec}
use harnesslab.Sandbox.Harness.{harness_sandbox}
use harnesslab.Trpc.Runtime.{Tool}
use harnesslab.Builder.Surroundings.{
  BuildOptions, Built, ◌>>=◌, when_done, BuildError, Surroundings, root_or_empty,
}
use harnesslab.Builder.Build.{
  Harness, open_store, open_workspace, sandbox_made, build_tools, new_runtime, build_replay,
  first_record, build_in,
}
use harnesslab.Shared.Float.{Floats}
use mathlib.Core.Path.{subst}
use harnesslab.Shared.{◌≡◌, refl, List, [], ◌∷◌}
use Prim.Native.String.{◌++◌ as ◌<>◌}

pub >>=-eq-ok :
    {A B : Type 0} (m : Built A) (f : A → Built B) {b : B}
    → (m >>= f) ≡ Built.ok b
    → (a : A) × (m ≡ Built.ok a) × (f a ≡ Built.ok b)
>>=-eq-ok (Built.ok a) f h = (a, refl, h)
>>=-eq-ok (Built.err e) f h = absurd (cc h)

pub ok-eq-ok : {A : Type 0} {a b : A} → Built.ok a ≡ Built.ok b → a ≡ b
ok-eq-ok h = cc h

module _ (F : Floats) (e : Surroundings F) (s : HarnessSpec F) (o : BuildOptions) where
  -- What was made on the way, and that the harness holds it.
  pub record Parts (h : Harness F) : Type 0 where
    pub workspace : open_workspace F e o ≡ Built.ok h.workspace
    pub sandbox :
        sandbox_made F e (harness_sandbox e.parse_duration e.goos s.sandbox) ≡ Built.ok h.sandbox
    pub tools : List Tool
    pub tools_made : build_tools F e s h.workspace h.sandbox ≡ Built.ok tools
    pub runtime : new_runtime F e s tools ≡ Built.ok h.runtime
    pub replay : build_replay F e o e.fresh_id (root_or_empty h.workspace) ≡ Built.ok h.replay

  pub build_in-Parts : (h : Harness F) → build_in F e s o ≡ Built.ok h → Parts h
  unfolding build_in
  build_in-Parts h built =
      let (store, _, k1) = >>=-eq-ok (open_store F e o) _ built in
      let (ws, w, k2) = >>=-eq-ok (open_workspace F e o) _ k1 in
      let (sb, sm, k3) =
        >>=-eq-ok (sandbox_made F e (harness_sandbox e.parse_duration e.goos s.sandbox)) _ k2 in
      let (tools, t, k4) = >>=-eq-ok (build_tools F e s ws sb) _ k3 in
      let (rt, r, k5) = >>=-eq-ok (new_runtime F e s tools) _ k4 in
      let trace = e.join (o.harness_dir ∷ "traces" ∷ (e.fresh_id <> ".jsonl") ∷ []) in
      let (path, _, k6) =
        >>=-eq-ok (when_done (e.open_trace trace) BuildError.trace_failed trace) _ k5 in
      let run = first_record F e s o (root_or_empty ws) trace in
      let (made, _, k7) =
        >>=-eq-ok (when_done (e.create_run run) BuildError.run_not_created run) _ k6 in
      let (replay, p, k8) = >>=-eq-ok (build_replay F e o e.fresh_id (root_or_empty ws)) _ k7 in
      subst Parts (ok-eq-ok k8) (record {
        workspace = w;
        sandbox = sm;
        tools = tools;
        tools_made = t;
        runtime = r;
        replay = p;
      })
