-- ===== src/Workspace/Captured.antt =====
-- internal/workspace/git/git.go: how much of git's diff `Diff` captures.
use harnesslab.Builder.{WorkspaceDiff}
use harnesslab.Workspace.Diff.{with_untracked, with_stat, with_patch, diff}
use harnesslab.Workspace.{Machine, Instance, cut_output, trimmed_output, git_out}
use harnesslab.Shared.{
  ℕ, ◌+◌, ◌≤◌, ◌<◌, ◌≡◌, ◌≢◌, sym, ap, ◌∙◌, Option, none, some, [], ◌∷◌, ◌++◌, Bytes, bytes, ltb,
  length, length-append, length-take_le, take, if◌then◌else◌, arith,
}

cut-le :
    (n : ℕ) (b rest : Bytes)
    → length (if ltb n (length b) then take n b ++ rest else b) ≤ n + length rest
cut-le n b rest = ground (arith, length-append (take n b) rest, length-take_le n b)

cut_output-le : (b : Bytes) → length (cut_output b) ≤ 515
unfolding cut_output
cut_output-le b = cut-le 512 b (bytes "...")

cut_output-whole : (b : Bytes) → length b ≤ 512 → cut_output b ≡ b
unfolding cut_output
cut_output-whole b h = ground arith

-- The patch of a diff, if there is one.
abbrev patch_or : Bytes → Option WorkspaceDiff → Bytes
patch_or p none = p
patch_or p (some d) = d.patch

module _ (A : Machine) (inst : Instance) where
  untracked-patch :
      (patch stat : Bytes) (o : Option Bytes × A.State) (d : WorkspaceDiff) (t : A.State)
      → with_untracked A patch stat o ≡ (some d, t)
      → d.patch ≡ patch
  untracked-patch patch stat (out, s) d t e = ap (λ x. patch_or patch x.0) (sym e)

  stat-patch :
      (patch : Bytes) (o : Option Bytes × A.State) (d : WorkspaceDiff) (t : A.State)
      → with_stat A inst patch o ≡ (some d, t)
      → d.patch ≡ patch
  unfolding with_stat
  stat-patch patch (none, s) d t e = absurd (cc e)
  stat-patch patch (some stat, s) d t e =
      untracked-patch patch stat
        (git_out A inst.root ("ls-files" ∷ "--others" ∷ "--exclude-standard" ∷ []) s) d t e

  -- If `Diff` succeeds and git printed `out` as the diff, then the patch has at most 515 bytes: it is `out` if
  -- that has at most 512 bytes, and it is not `out` if that has more than 515.
  pub diff-cut :
      (s s' t : A.State) (out : Bytes) (d : WorkspaceDiff)
      → A.run_git inst.root ("diff" ∷ []) s ≡ (some out, s')
      → diff A inst s ≡ (some d, t)
      → (length d.patch ≤ 515)
        × (length out ≤ 512 → d.patch ≡ out)
        × (515 < length out → d.patch ≢ out)
  unfolding diff
  diff-cut s s' t out d g e =
      let whole : with_patch A inst (trimmed_output A (some out), s') ≡ (some d, t) =
        ap (λ (o : Option Bytes × A.State). with_patch A inst (trimmed_output A o.0, o.1)) (sym g)
        ∙ e in
      let same =
        stat-patch (cut_output out) (git_out A inst.root ("diff" ∷ "--stat" ∷ []) s') d t whole in
      (
        rw same (cut_output-le out),
        λ h. same ∙ cut_output-whole out h,
        λ h long. absurd (omega (arith, ap length (sym long ∙ same), cut_output-le out, h)),
      )
