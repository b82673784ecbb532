-- ===== src/Trpc/Instruction/Mapped.antt =====
-- internal/runtime/trpc/runtime.go: which files the repository map shows.
use harnesslab.Trpc.Instruction.{
  MapEntry, Node, Forest, is_hidden, file_entry, node_entries, forest_entries, path_less,
  map_entries,
}
use harnesslab.Shared.Lexical.{by_text-IsStrictWeak}
use harnesslab.Shared.Sorting.{
  IsSorted, All-sort_slice, any-sort_slice, length-sort_slice, sort_slice-IsSorted,
}
use harnesslab.Shared.{
  ℕ, zero, suc, ◌≤◌, Bool, true, false, ◌≡◌, refl, ap, ◌∙◌, Option, none, some, List, [], ◌∷◌,
  Bytes, ltb, length, length-take_le, take, All, All-append, any, any-In, In, In-append_left,
  In-append_right, if◌then◌else◌, if-cases, arith,
}

-- A file that can be read, in no directory named .git or .harness.
mutual
  pub data InNode (e : MapEntry) : Node → Type 0 where
    is_file :
        {path : Option Bytes} {size : Option ℕ}
        → path ≡ some e.path
        → size ≡ some e.size
        → InNode e (Node.file path size)
    below :
        {name : Bytes} {forest : Forest}
        → is_hidden name ≡ false
        → InForest e forest
        → InNode e (Node.directory name forest)

  pub data InForest (e : MapEntry) : Forest → Type 0 where
    first : {n : Node} {rest : Forest} → InNode e n → InForest e (Forest.also n rest)
    later : {n : Node} {rest : Forest} → InForest e rest → InForest e (Forest.also n rest)

file_entry-InNode :
    (path : Option Bytes) (size : Option ℕ)
    → All (λ e. InNode e (Node.file path size)) (file_entry path size)
file_entry-InNode none size = tt
file_entry-InNode (some path) none = tt
file_entry-InNode (some path) (some size) = (InNode.is_file refl refl, tt)

All-weaken :
    {P Q : MapEntry → Type 0}
    → ((e : MapEntry) → P e → Q e)
    → (es : List MapEntry) → All P es
    → All Q es
All-weaken sub [] h = tt
All-weaken sub (e ∷ es) (p, h) = (sub e p, All-weaken sub es h)

All-take : (P : MapEntry → Type 0) (n : ℕ) (es : List MapEntry) → All P es → All P (take n es)
All-take P zero es h = tt
All-take P (suc n) [] h = tt
All-take P (suc n) (e ∷ es) (p, h) = (p, All-take P n es h)

mutual
  unfolding node_entries

  node_entries-InNode : (n : Node) → All (λ e. InNode e n) (node_entries n)
  node_entries-InNode Node.unreadable = tt
  node_entries-InNode (Node.file path size) = file_entry-InNode path size
  node_entries-InNode (Node.directory name forest) =
      let found = forest_entries-InForest forest in
      if-cases (All (λ e. InNode e (Node.directory name forest))) (is_hidden name) (λ _. tt)
        (λ v. All-weaken (λ e i. InNode.below v i) (forest_entries forest) found)

  forest_entries-InForest : (f : Forest) → All (λ e. InForest e f) (forest_entries f)
  forest_entries-InForest Forest.end = tt
  forest_entries-InForest (Forest.also n rest) =
      All-append (λ e. InForest e (Forest.also n rest)) (node_entries n) (forest_entries rest)
        (All-weaken (λ e i. InForest.first i) (node_entries n) (node_entries-InNode n))
        (All-weaken (λ e i. InForest.later i) (forest_entries rest) (forest_entries-InForest rest))

cut-le : (n : ℕ) (es : List MapEntry) → length (if ltb n (length es) then take n es else es) ≤ n
cut-le n es = ground (arith, length-take_le n es)

whole :
    (n : ℕ) (es : List MapEntry)
    → length es ≤ n
    → (if ltb n (length es) then take n es else es) ≡ es
whole n es h = ground arith

mutual
  unfolding node_entries

  In-node_entries : {e : MapEntry} {n : Node} → InNode e n → In e (node_entries n)
  In-node_entries (InNode.is_file p q) = rw (p, q) (In.here refl)
  In-node_entries (InNode.below {name} {forest} v i) = let found = In-forest_entries i in rw v found

  In-forest_entries : {e : MapEntry} {f : Forest} → InForest e f → In e (forest_entries f)
  In-forest_entries (InForest.first {n} {rest} i) =
      In-append_left (node_entries n) (forest_entries rest) (In-node_entries i)
  In-forest_entries (InForest.later {n} {rest} i) =
      In-append_right (node_entries n) (forest_entries rest) (In-forest_entries i)

-- The repository map shows files that can be read and lie in no directory named .git or .harness, at most
-- 200 of them, in the order of their paths; and it shows all of them if there are at most 200.
pub map_entries-visible :
    (root : Node)
    → All (λ e. InNode e root) (map_entries root)
      × (length (map_entries root) ≤ 200)
      × IsSorted path_less (map_entries root)
      × (length (node_entries root) ≤ 200
          → (p : MapEntry → Bool) (e : MapEntry) → InNode e root
          → p e ≡ true
          → any p (map_entries root) ≡ true)
unfolding map_entries
map_entries-visible root =
    let es = node_entries root in
    let cut : List MapEntry = if ltb 200 (length es) then take 200 es else es in
    (
      All-sort_slice path_less (λ e. InNode e root) cut
          (if-cases (All (λ e. InNode e root)) (ltb 200 (length es))
            (λ _. All-take (λ e. InNode e root) 200 es (node_entries-InNode root))
            (λ _. node_entries-InNode root)),
      rw (length-sort_slice path_less cut) (cut-le 200 es),
      sort_slice-IsSorted path_less (by_text-IsStrictWeak (λ (e : MapEntry). e.path)) cut,
      λ small p e i h.
          any-sort_slice path_less p cut
          ∙ ap (any p) (whole 200 es small)
          ∙ any-In p (In-node_entries i) h,
    )
