-- ===== src/Builder/Build/Replaying.antt =====
-- internal/harness/builder/builder.go: a harness that is built to replay a run.
use harnesslab.Spec.Types.{HarnessSpec}
use harnesslab.Replay.Canonical.{Canonicalizer}
use harnesslab.Replay.Tools.{ReplayMode}
use harnesslab.Trpc.Instruction.{Node}
use harnesslab.Trpc.Runtime.{
  wrapper_for, canonicalizer_for, ReplayConfig, TrpcRuntime, LiveModel, Agent, new_model,
  callbacks_for, agent_on, make_agent,
}
use harnesslab.Builder.Surroundings.{
  BuildOptions, Built, when_done, BuildError, Surroundings, root_or_empty,
}
use harnesslab.Spec.Valid.{IsValid}
use harnesslab.Builder.Build.Supported.{new_runtime-valid, runtime_for-framework}
use mathlib.Core.Option.{some-injective}
use harnesslab.Builder.Build.{
  replay_config, Runtime, Harness, journal_of, build_replay, with_dir, build,
}
use harnesslab.Builder.Build.Parts.{ok-eq-ok, build_in-Parts}
use harnesslab.Shared.Float.{Floats}
use harnesslab.Shared.{
  String, Bool, true, false, ◌≡◌, sym, ap, ◌∙◌, Option, none, some, List, [], ◌∷◌, Bytes, bytes,
  ◌==◌, string_eq, if◌then◌else◌,
}

when_done-ok :
    {A : Type 0} (b : Bool) (f : BuildError) (a c : A) → when_done b f a ≡ Built.ok c → a ≡ c
when_done-ok true f a c h = ok-eq-ok h
when_done-ok false f a c h = absurd (cc h)

-- What an agent has of a model, callbacks and a wrapper, if there is an agent.
abbrev fitted :
    {F : Floats} → Option (Agent F) → Option (LiveModel × Option ReplayMode × Option Canonicalizer)
fitted none = none
fitted (some a) = some (a.model, a.callbacks, a.wrapper)

module _ (F : Floats) where
  agent_on-fitted :
      (r : TrpcRuntime F) (cfg : ReplayConfig) (root temp : Bytes) (tree : Option Node)
      (m : Option LiveModel) (a : Agent F)
      → agent_on F r (some cfg) root temp tree m ≡ some a
      → (m ≡ some a.model)
        × (a.callbacks ≡ callbacks_for (some cfg))
        × (a.wrapper ≡ wrapper_for (some cfg) (canonicalizer_for root temp (some cfg)))
  unfolding agent_on
  agent_on-fitted r cfg root temp tree none a h = absurd (cc h)
  agent_on-fitted r cfg root temp tree (some m) a h =
      let f = some-injective _ _ (ap fitted h) in
      (ap (λ x. some x.0) f, sym (ap (λ x. x.1) f), sym (ap (λ x. x.2) f))

  module _ (e : Surroundings F) (o : BuildOptions) (id root : String) (cfg : ReplayConfig) where
    build_replay-strict :
        (o.replay_from == "") ≡ false
        → o.replay_fallback ≡ false
        → build_replay F e o id root ≡ Built.ok cfg
        → replay_config F e o ReplayMode.strict (journal_of F e o o.replay_from) root ≡ cfg
    unfolding build_replay
    build_replay-strict from strict =
        rw (from, strict)
          (when_done-ok (e.open_journal (journal_of F e o o.replay_from)) BuildError.journal_failed
            _ cfg)

    build_replay-recording :
        (o.replay_from == "") ≡ true
        → build_replay F e o id root ≡ Built.ok cfg
        → replay_config F e o ReplayMode.recording (journal_of F e o id) root ≡ cfg
    unfolding build_replay
    build_replay-recording from =
        rw from
          (when_done-ok (e.open_journal (journal_of F e o id)) BuildError.journal_failed _ cfg)

  abbrev pub SameDirectory : Surroundings F → BuildOptions → Surroundings F → BuildOptions → Type 0
  SameDirectory e o e' o' =
      (parts : List String)
      → e.join ((with_dir F e o).harness_dir ∷ parts)
        ≡ e'.join ((with_dir F e' o').harness_dir ∷ parts)

  -- A harness that `Build` makes without a run to replay records into a journal; and one that it makes for a
  -- valid specification to replay that run without fallback, in the same directory, has the same journal. If
  -- its runtime is that of the framework, then the agent that this runs has the model of the specification,
  -- the callbacks of the mode strict, and the model is wrapped if the model is replayed too, with the
  -- canonicalizer of the new workspace.
  pub build-offline :
      (e e' : Surroundings F) (is_duration : String → Bool) (s s' : HarnessSpec F)
      (o o' : BuildOptions) (recording replaying : Harness F) (r : TrpcRuntime F)
      (root temp : Bytes) (tree : Option Node) (a : Agent F)
      → (o.replay_from == "") ≡ true
      → build F e s o ≡ Built.ok recording
      → o'.replay_from ≡ e.fresh_id
      → (e.fresh_id == "") ≡ false
      → o'.replay_fallback ≡ false
      → SameDirectory e o e' o'
      → IsValid F is_duration s'
      → build F e' s' o' ≡ Built.ok replaying
      → replaying.runtime ≡ Runtime.trpc r
      → make_agent F r (some replaying.replay) root temp tree ≡ some a
      → (recording.replay.mode ≡ ReplayMode.recording)
        × (replaying.replay.store ≡ recording.replay.store)
        × (a.callbacks ≡ some ReplayMode.strict)
        × (new_model F s'.model ≡ some a.model)
        × (a.wrapper ≡ (
            if o'.replay_model
            then some (record {
              workspace_root = bytes (root_or_empty replaying.workspace);
              temp_dir = e'.temp_dir;
            })
            else none))
  unfolding build make_agent
  build-offline e e' is_duration s s' o o' recording replaying r root temp tree a live recorded from
        id strict same valid replayed framework made =
      let p = build_in-Parts F e s (with_dir F e o) recording recorded in
      let p' = build_in-Parts F e' s' (with_dir F e' o') replaying replayed in
      let cfg =
        build_replay-recording e (with_dir F e o) e.fresh_id (root_or_empty recording.workspace)
          recording.replay live p.replay in
      let set : (o'.replay_from == "") ≡ false = ap (λ x. x == "") from ∙ id in
      let cfg' =
        build_replay-strict e' (with_dir F e' o') e'.fresh_id (root_or_empty replaying.workspace)
          replaying.replay set strict p'.replay in
      let rt = ok-eq-ok (sym (new_runtime-valid F e' is_duration s' p'.tools valid) ∙ p'.runtime) in
      let mine = runtime_for-framework F s' p'.tools r (rt ∙ framework) in
      let (model, callbacks, wrapper) =
        agent_on-fitted r replaying.replay root temp tree (new_model F r.spec.model) a made in
      (
        sym (ap (λ (x : ReplayConfig). x.mode) cfg),
        sym (ap (λ (x : ReplayConfig). x.store) cfg')
            ∙ ap (λ x. some (journal_of F e' (with_dir F e' o') x)) from
            ∙ ap some (sym (same ("replay" ∷ e.fresh_id ∷ "entries.jsonl" ∷ [])))
            ∙ ap (λ (x : ReplayConfig). x.store) cfg,
        callbacks ∙ sym (ap (λ (x : ReplayConfig). callbacks_for (some x)) cfg'),
        ap (λ (x : TrpcRuntime F). new_model F x.spec.model) mine ∙ model,
        wrapper
            ∙ sym (
                ap
                  (λ (x : ReplayConfig).
                    wrapper_for (some x) (canonicalizer_for root temp (some x)))
                  cfg'),
      )
