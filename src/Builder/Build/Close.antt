-- ===== src/Builder/Build/Close.antt =====
-- internal/harness/builder/builder.go: `Close`.
use harnesslab.Sandbox.Backends.{Sandbox}
use harnesslab.Workspace.{Instance}
use harnesslab.Builder.Build.{Harness}
use harnesslab.Shared.Float.{Floats}
use harnesslab.Shared.{String, Option, none, some, List, [], ◌∷◌, string_eq}

module _ (F : Floats) where
  -- `Close`: the sandbox, the recorder and the workspace are released, whichever of them fails; the errors
  -- are joined.
  pub data Released : Type 0 where
    sandbox_closed : Sandbox → Released
    recorder_closed : String → Released
    workspace_destroyed : Instance → Released

  abbrev pub workspace_released : Option Instance → List Released
  workspace_released none = []
  workspace_released (some w) = Released.workspace_destroyed w ∷ []

  unfoldable pub released : Harness F → List Released
  released h =
      Released.sandbox_closed h.sandbox
      ∷ Released.recorder_closed h.trace_path
      ∷ workspace_released h.workspace

  abbrev pub failures : (Released → Option String) → List Released → List String
  failures outcome [] = []
  failures outcome (r ∷ rs) =
      let rest = failures outcome rs in
      elim (outcome r) [ none ↦ rest | some message ↦ message ∷ rest ]

  unfoldable pub close : (Released → Option String) → Harness F → List String
  unfolding released
  close outcome h = failures outcome (released h)
