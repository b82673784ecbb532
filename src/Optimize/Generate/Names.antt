-- ===== src/Optimize/Generate/Names.antt =====
-- internal/optimize/llm.go: the names of candidates and of their files.
use harnesslab.Optimize.Generate.{
  is_name_char, dashed, skip_dashes, put_before, drop_dashes, sanitize_name, file_of, Generated,
  name_for, default_name,
}
use harnesslab.Shared.Float.{Floats}
use harnesslab.Shared.Scan.{trim_space}
use harnesslab.Shared.{
  ℕ, true, ◌≡◌, ◌≢◌, refl, List, [], ◌∷◌, ◌++◌, Bytes, bytes, if◌then◌else◌, if-cases, All,
  All-append, ◌==◌, string_eq, bytes_eq, nat_eq, length, ◌+◌,
}
use mathlib.Core.List.{append_cancel_left, append_cancel_right}

-- A name of lower case letters, digits, dashes and underscores.
abbrev pub IsName : Bytes → Type 0
IsName = All (λ r. is_name_char r ≡ true)

-- Without a repetition.
abbrev pub Distinct : List Bytes → Type 0
Distinct [] = Unit
Distinct (x ∷ xs) = All (λ y. x ≢ y) xs × Distinct xs

pub Distinct-snoc :
    (xs : List Bytes) (x : Bytes) → Distinct xs → All (λ y. y ≢ x) xs → Distinct (xs ++ x ∷ [])
Distinct-snoc [] x h k = (tt, tt)
Distinct-snoc (y ∷ ys) x (h, hs) (k, ks) =
    (All-append (λ z. y ≢ z) ys (x ∷ []) h (k, tt), Distinct-snoc ys x hs ks)

dashed-IsName : (s : Bytes) → IsName (dashed s)
dashed-IsName [] = tt
dashed-IsName (r ∷ s) =
    (if-cases (λ c. is_name_char c ≡ true) (is_name_char r) (λ e. e) (λ _. refl), dashed-IsName s)

skip_dashes-IsName : (s : Bytes) → IsName s → IsName (skip_dashes s)
skip_dashes-IsName [] h = tt
skip_dashes-IsName (r ∷ s) (h, hs) =
    if-cases IsName (r == 45) (λ _. skip_dashes-IsName s hs) (λ _. (h, hs))

put_before-IsName : (r : ℕ) (s : Bytes) → is_name_char r ≡ true → IsName s → IsName (put_before r s)
put_before-IsName r [] h hs = if-cases IsName (r == 45) (λ _. tt) (λ _. (h, tt))
put_before-IsName r (q ∷ s) h hs = (h, hs)

drop_dashes-IsName : (s : Bytes) → IsName s → IsName (drop_dashes s)
drop_dashes-IsName [] h = tt
drop_dashes-IsName (r ∷ s) (h, hs) = put_before-IsName r (drop_dashes s) h (drop_dashes-IsName s hs)

sanitize_name-IsName : (s : Bytes) → IsName (sanitize_name s)
unfolding sanitize_name
sanitize_name-IsName s =
    let t = trim_space s in
    drop_dashes-IsName (skip_dashes (dashed t)) (skip_dashes-IsName (dashed t) (dashed-IsName t))

pub file_of-cancel : (m n : Bytes) → file_of m ≡ file_of n → m ≡ n
file_of-cancel m n e =
    append_cancel_right m n (bytes ".yaml")
      (append_cancel_left (bytes "candidate-") (m ++ bytes ".yaml") (n ++ bytes ".yaml") e)

pub name_for-IsName :
    {F : Floats} {M H : Type 0} (name : Bytes) (g : Generated F M H) → IsName (name_for name g)
unfolding name_for sanitize_name default_name
name_for-IsName name g =
    sanitize_name-IsName (if name == [] then default_name (length g.candidates + 1) else name)
