-- ===== src/Workspace/Waiting.antt =====
-- internal/workspace/git/git.go: the wait for the lock of the mirror ends.
use harnesslab.Workspace.{
  Machine, MirrorError, WorkspaceSpec, Created, wait_lock, after_wait, mirror_valid, lock_or_wait,
  with_directory, unless_valid, ensure_mirror, add_worktree, create_workspace, is_absent,
}
use harnesslab.Shared.{
  ℕ, zero, suc, ◌+◌, ◌*◌, ◌≤◌, ◌<◌, String, Bool, true, false, ◌≡◌, refl, Option, none, some, List,
  [], ◌∷◌, ltb, ◌==◌, string_eq, Bool-cases, inl, inr, arith,
}

module _ (A : Machine) where
  -- A sleep lasts at least as long as it is told to.
  abbrev pub IsClock : Type 0
  IsClock = (n : ℕ) (s : A.State) → A.now s + n ≤ A.now (A.sleep n s)

  abbrev Ended : Type 0
  Ended = Option MirrorError × A.State

  abbrev Returns : {B : Type 0} → Option B → Type 0
  Returns {B} o = (b : B) × (o ≡ some b)

  module _ (clock : IsClock) where
    -- The four ways on from a round.
    round-Returns :
        (fuel : ℕ) (lock : String) (deadline : ℕ) (s : A.State)
        → (ltb deadline (A.now s) ≡ false
            → Returns (wait_lock A fuel lock deadline (A.sleep 500 s)))
        → Returns (wait_lock A (suc fuel) lock deadline s)
    unfolding wait_lock
    round-Returns fuel lock deadline s later = elim (Bool-cases (is_absent (A.stat lock s))) [
      | inl e ↦ rw e (_, refl)
      | inr e ↦ elim (Bool-cases (A.is_done s)) [
        | inl d ↦ rw (e, d) (_, refl)
        | inr d ↦ elim (Bool-cases (ltb deadline (A.now s))) [
          | inl l ↦ rw (e, d, l) (_, refl)
          | inr l ↦ rw (e, d, l) (later l)
        ]
      ]
    ]

    wait_lock-Returns :
        (fuel : ℕ) (lock : String) (deadline : ℕ) (s : A.State)
        → deadline < A.now s + 500 * fuel
        → Returns (wait_lock A (suc fuel) lock deadline s)
    wait_lock-Returns zero lock deadline s h =
        round-Returns zero lock deadline s (λ l. absurd (ground (arith, l, h)))
    wait_lock-Returns (suc fuel) lock deadline s h =
        round-Returns (suc fuel) lock deadline s (λ l.
          wait_lock-Returns fuel lock deadline (A.sleep 500 s) (omega (arith, h, clock 500 s)))

    after_wait-Returns :
        (mirror : String) (o : Option Ended) → Returns o → Returns (after_wait A mirror o)
    unfolding after_wait
    after_wait-Returns mirror none (b, e) = absurd (cc e)
    after_wait-Returns mirror (some (some x, s)) r = (_, refl)
    after_wait-Returns mirror (some (none, s)) r = (_, refl)

    module _ (fuel : ℕ) (enough : 241 ≤ fuel) (root_dir : String)
        (join : List String → String) where
      lock_or_wait-Returns :
          (repo mirror lock : String) (o : Bool × A.State)
          → Returns (lock_or_wait A (suc fuel) root_dir join repo mirror lock o)
      unfolding lock_or_wait
      lock_or_wait-Returns repo mirror lock (true, s) = (_, refl)
      lock_or_wait-Returns repo mirror lock (false, s) =
          after_wait-Returns mirror (wait_lock A (suc fuel) lock (A.now s + 120000) s)
            (wait_lock-Returns fuel lock (A.now s + 120000) s (omega arith))

      with_directory-Returns :
          (repo mirror : String) (o : Bool × A.State)
          → Returns (with_directory A (suc fuel) root_dir join repo mirror o)
      unfolding with_directory
      with_directory-Returns repo mirror (false, s) = (_, refl)
      with_directory-Returns repo mirror (true, s) =
          lock_or_wait-Returns repo mirror _ (A.create_new _ s)

      unless_valid-Returns :
          (repo mirror : String) (o : Bool × A.State)
          → Returns (unless_valid A (suc fuel) root_dir join repo mirror o)
      unfolding unless_valid
      unless_valid-Returns repo mirror (true, s) = (_, refl)
      unless_valid-Returns repo mirror (false, s) =
          with_directory-Returns repo mirror (A.mkdir_all root_dir s)

      ensure_mirror-Returns :
          (mirror repo : String) (s : A.State)
          → Returns (ensure_mirror A (suc fuel) root_dir join mirror repo s)
      unfolding ensure_mirror
      ensure_mirror-Returns mirror repo s =
          unless_valid-Returns repo mirror (mirror_valid A mirror s)

      add_worktree-Returns :
          (id : String) (w : WorkspaceSpec) (mirror : String) (o : Option Ended)
          → Returns o
          → Returns (add_worktree A (suc fuel) root_dir join id w mirror o)
      add_worktree-Returns id w mirror none (b, e) = absurd (cc e)
      add_worktree-Returns id w mirror (some (some x, s)) r = (_, refl)
      add_worktree-Returns id w mirror (some (none, s)) r = (_, refl)

      -- If a sleep lasts at least as long as it is told to, 242 rounds of the wait for the lock are enough: the
      -- creation of a workspace ends, with a workspace or an error, whatever git, the file system and the
      -- other workers do.
      pub create_workspace-Returns :
          (id : String) (w : WorkspaceSpec) (s : A.State)
          → (result : Created × A.State) × (create_workspace A (suc fuel) root_dir join id w s
              ≡ some result)
      unfolding create_workspace
      create_workspace-Returns id w s = elim (Bool-cases (w.repo == "")) [
        | inl e ↦ rw e (_, refl)
        | inr e ↦
            let mirror = join (root_dir ∷ "mirror.git" ∷ []) in
            rw e (
              add_worktree-Returns id w mirror
                (ensure_mirror A (suc fuel) root_dir join mirror w.repo s)
                (ensure_mirror-Returns mirror w.repo s))
      ]
