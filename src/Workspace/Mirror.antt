-- ===== src/Workspace/Mirror.antt =====
-- internal/workspace/git/git.go: which worker clones the mirror, and what it leaves behind.
use harnesslab.Workspace.{Machine, MirrorError, git}
use harnesslab.Shared.{ℕ, String, true, false, ◌≡◌, Option, none, some, [], ◌∷◌, string_eq, ◌⊎◌, In}
use Prim.Native.String.{◌++◌ as ◌<>◌}

module _ (A : Machine) (mirror repo root_dir : String) where
  -- What no step of a worker without the lock changes: the question whether the mirror is a repository, the
  -- directory that is made, a lock that is refused, and a sleep leave it as it is.
  pub record IsUntouched (Q : A.State → Type 0) : Type 0 where
    pub git-ask :
        (s : A.State)
        → Q s
        → Q (git A ("--git-dir" ∷ mirror ∷ "rev-parse" ∷ "--is-bare-repository" ∷ []) s).1
    pub after-mkdir_all : (s : A.State) → Q s → Q (A.mkdir_all root_dir s).1
    pub create_new-refused :
        (s : A.State)
        → (A.create_new (mirror <> ".lock") s).0 ≡ false
        → Q s
        → Q (A.create_new (mirror <> ".lock") s).1
    pub after-sleep : (n : ℕ) (s : A.State) → Q s → Q (A.sleep n s)

  -- Without an error the last step was a clone by git that succeeded, into a place that was cleared for it;
  -- and an error is one of the clone.
  abbrev pub Cloned : Option MirrorError → A.State → Type 0
  Cloned none u =
      (v : A.State) × (git A ("clone" ∷ "--mirror" ∷ repo ∷ mirror ∷ []) (A.remove_all mirror v).1
        ≡ (true, u))
  Cloned (some e) u = In e (MirrorError.clone_cancelled ∷ MirrorError.clone_failed ∷ [])

  -- The work of a worker that has made the lock: it removes the lock as its last step.
  abbrev pub Held : Option MirrorError → A.State → Type 0
  Held e s' =
      (t t' u : A.State) × (A.create_new (mirror <> ".lock") t ≡ (true, t'))
      × Cloned e u
      × (s' ≡ A.remove (mirror <> ".lock") u)

  module _ (Q : A.State → Type 0) (q : IsUntouched Q) where
    -- The worker changed nothing, or it held the lock.
    abbrev Guarded : Option (Option MirrorError × A.State) → Type 0
    Guarded none = Unit
    Guarded (some (e, s')) = Q s' ⊎ Held e s'

    abbrev KeptIfAny : Option (Option MirrorError × A.State) → Type 0
    KeptIfAny none = Unit
    KeptIfAny (some (e, s')) = Q s'
