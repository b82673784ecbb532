-- ===== src/Trpc/Instruction/Tests.antt =====
-- internal/runtime/trpc/runtime.go: the map of a small tree.
use harnesslab.Trpc.Instruction.{
  MapEntry, Node, Forest, node_entries, path_less, map_entries, repo_map, trim_line, print_entries,
}
use harnesslab.Trpc.Instruction.Mapped.{InNode, map_entries-visible}
use harnesslab.Shared.Lexical.{bytes_ltb}
use harnesslab.Shared.Sorting.{IsSorted, sort_slice}
use harnesslab.Shared.Text.{bytes_beq}
use harnesslab.Shared.{ℕ, ◌≤◌, Bool, true, ◌≡◌, refl, some, Bytes, bytes, length, All, any}

abbrev leaf : Bytes → ℕ → Node
leaf path size = Node.file (some path) (some size)

abbrev tree : Node
tree = Node.directory (bytes "w") (
    Forest.also (leaf (bytes "b.go") 3) (
      Forest.also
        (Node.directory (bytes ".git") (Forest.also (leaf (bytes ".git/HEAD") 9) Forest.end))
        (Forest.also (leaf (bytes "a.go") 4) Forest.end)))

map_entries-visible_example :
    All (λ e. InNode e tree) (map_entries tree)
    × (length (map_entries tree) ≤ 200)
    × IsSorted path_less (map_entries tree)
    × (length (node_entries tree) ≤ 200
        → (p : MapEntry → Bool) (e : MapEntry) → InNode e tree
        → p e ≡ true
        → any p (map_entries tree) ≡ true)
map_entries-visible_example = map_entries-visible tree

printed : repo_map (some tree) ≡ bytes "a.go (4 B)\nb.go (3 B)"
unfolding repo_map map_entries node_entries print_entries trim_line bytes_beq sort_slice bytes_ltb
printed = refl
