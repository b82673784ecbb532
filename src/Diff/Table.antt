-- ===== src/Diff/Table.antt =====
-- internal/diff/diff.go: the table of longest common subsequences in `Compare`, over step keys.
use mathlib.Core.List.{reverse_aux}
use harnesslab.Shared.{
  ℕ, zero, suc, ◌+◌, ◌≤◌, ◌≡◌, refl, ap, ◌∙◌, arith, length, take, get_elem?, Option, none, some,
  Bool, List, [], ◌∷◌, ltb, ◌==◌, if◌then◌else◌, Bytes, bytes_eq,
}

abbrev zeros : List Bytes → List ℕ
zeros [] = 0 ∷ []
zeros (b ∷ bs) = 0 ∷ zeros bs

abbrev cell : Bool → ℕ → ℕ → ℕ → ℕ
cell same diag above left = if same then diag + 1 else if ltb left above then above else left

-- The inner loop: `dp[i][j]` for the remaining `j`, from `dp[i-1][j-1]` on and `dp[i][j-1]`.
cells : Bytes → List Bytes → List ℕ → ℕ → List ℕ
cells x (y ∷ ys) (diag ∷ above ∷ prev) left =
    let here = cell (x == y) diag above left in here ∷ cells x ys (above ∷ prev) here
cells x _ _ left = []

rows : List ℕ → List Bytes → List Bytes → List (List ℕ)
rows prev [] ys = prev ∷ []
rows prev (x ∷ xs) ys = prev ∷ rows (0 ∷ cells x ys prev 0) xs ys

unfoldable pub lcs_table : List Bytes → List Bytes → List (List ℕ)
unfolding rows cells
lcs_table xs ys = rows (zeros ys) xs ys

-- The reference: the length of a longest common subsequence.
unfoldable pub lcs : List Bytes → List Bytes → ℕ
lcs [] ys = 0
lcs (x ∷ xs) [] = 0
lcs (x ∷ xs) (y ∷ ys) =
    let diag = lcs xs ys in
    let above = lcs xs (y ∷ ys) in let left = lcs (x ∷ xs) ys in cell (x == y) diag above left

-- The row for the prefix `rx` (reversed): an entry for each prefix of the other side.
lcs_row : List Bytes → List Bytes → List Bytes → List ℕ
lcs_row rx ry [] = lcs rx ry ∷ []
lcs_row rx ry (y ∷ ys) = lcs rx ry ∷ lcs_row rx (y ∷ ry) ys

lcs_rows : List Bytes → List Bytes → List Bytes → List (List ℕ)
lcs_rows rx [] ys = lcs_row rx [] ys ∷ []
lcs_rows rx (x ∷ xs) ys = lcs_row rx [] ys ∷ lcs_rows (x ∷ rx) xs ys

cells-lcs_row :
    (x : Bytes) (rx ry ys : List Bytes)
    → lcs (x ∷ rx) ry ∷ cells x ys (lcs_row rx ry ys) (lcs (x ∷ rx) ry) ≡ lcs_row (x ∷ rx) ry ys
unfolding cells lcs_row lcs
cells-lcs_row x rx ry [] = refl
cells-lcs_row x rx ry (y ∷ []) = refl
cells-lcs_row x rx ry (y ∷ z ∷ ys) =
    ap (λ l. lcs (x ∷ rx) ry ∷ l) (cells-lcs_row x rx (y ∷ ry) (z ∷ ys))

zeros-lcs_row : (ry ys : List Bytes) → zeros ys ≡ lcs_row [] ry ys
unfolding lcs_row lcs
zeros-lcs_row ry [] = refl
zeros-lcs_row ry (y ∷ ys) = ap (λ l. 0 ∷ l) (zeros-lcs_row (y ∷ ry) ys)

rows-lcs_rows : (rx xs ys : List Bytes) → rows (lcs_row rx [] ys) xs ys ≡ lcs_rows rx xs ys
unfolding rows lcs_rows lcs
rows-lcs_rows rx [] ys = refl
rows-lcs_rows rx (x ∷ xs) ys =
    ap (λ l. lcs_row rx [] ys ∷ l)
      (ap (λ r. rows r xs ys) (cells-lcs_row x rx [] ys) ∙ rows-lcs_rows (x ∷ rx) xs ys)

abbrev pub row_at : Option (List ℕ) → List ℕ
row_at none = []
row_at (some row) = row

abbrev pub value_at : Option ℕ → ℕ
value_at none = 0
value_at (some v) = v

-- `dp[i][j]`; the walk reads it only within the bounds of the table.
abbrev pub entry : List (List ℕ) → ℕ → ℕ → ℕ
entry table i j = value_at (get_elem? (row_at (get_elem? table i)) j)

get_elem?-lcs_row :
    (rx ry ys : List Bytes) (j : ℕ)
    → j ≤ length ys
    → get_elem? (lcs_row rx ry ys) j ≡ some (lcs rx (reverse_aux (take j ys) ry))
unfolding lcs_row
get_elem?-lcs_row rx ry [] zero h = refl
get_elem?-lcs_row rx ry [] (suc j) h = absurd (omega arith)
get_elem?-lcs_row rx ry (y ∷ ys) zero h = refl
get_elem?-lcs_row rx ry (y ∷ ys) (suc j) h = get_elem?-lcs_row rx (y ∷ ry) ys j (omega arith)

get_elem?-lcs_rows :
    (rx xs ys : List Bytes) (i : ℕ)
    → i ≤ length xs
    → get_elem? (lcs_rows rx xs ys) i ≡ some (lcs_row (reverse_aux (take i xs) rx) [] ys)
unfolding lcs_rows
get_elem?-lcs_rows rx [] ys zero h = refl
get_elem?-lcs_rows rx [] ys (suc i) h = absurd (omega arith)
get_elem?-lcs_rows rx (x ∷ xs) ys zero h = refl
get_elem?-lcs_rows rx (x ∷ xs) ys (suc i) h = get_elem?-lcs_rows (x ∷ rx) xs ys i (omega arith)

-- Within the two lengths, `dp[i][j]` is the value that the recursion on last elements gives for the
-- first `i` keys of one side and the first `j` of the other.
pub entry-lcs_table :
    (xs ys : List Bytes) (i j : ℕ)
    → i ≤ length xs
    → j ≤ length ys
    → entry (lcs_table xs ys) i j ≡ lcs (reverse_aux (take i xs) []) (reverse_aux (take j ys) [])
unfolding lcs_table
entry-lcs_table xs ys i j p q =
    let e : rows (zeros ys) xs ys ≡ lcs_rows [] xs ys =
      ap (λ r. rows r xs ys) (zeros-lcs_row [] ys) ∙ rows-lcs_rows [] xs ys in
    rw
      (e, get_elem?-lcs_rows [] xs ys i p, get_elem?-lcs_row (reverse_aux (take i xs) []) [] ys j q)
