-- ===== src/Shared/Lexical.antt =====
-- Go's `<` on strings, and `strings.HasSuffix`.
use harnesslab.Shared.Tests.{ltb, leb, ◌==◌, nat_eq}
use harnesslab.Shared.Lists.{length, drop}
use harnesslab.Shared.Text.{Bytes, bytes_eq}
use harnesslab.Shared.Sorting.{IsStrictWeak}
use Prim.Native.Nat.{◌-◌}
use mathlib.Core.Path.{◌≡◌, refl}
use mathlib.Core.Bool.{Bool, true, false, ◌&&◌, ◌||◌}
use mathlib.Core.List.{[], ◌∷◌}
use native.Mathlib.Omega.{arith}

unfoldable pub bytes_ltb : Bytes → Bytes → Bool
bytes_ltb [] [] = false
bytes_ltb [] (b ∷ t) = true
bytes_ltb (a ∷ s) [] = false
bytes_ltb (a ∷ s) (b ∷ t) = ltb a b || a == b && bytes_ltb s t

abbrev pub has_suffix : Bytes → Bytes → Bool
has_suffix s p = leb (length p) (length s) && drop (length s - length p) s == p

bytes_ltb_asym : (s t : Bytes) → bytes_ltb s t ≡ true → bytes_ltb t s ≡ false
unfolding bytes_ltb
bytes_ltb_asym [] [] h = refl
bytes_ltb_asym [] (b ∷ t) h = refl
bytes_ltb_asym (a ∷ s) [] h = ground arith
bytes_ltb_asym (a ∷ s) (b ∷ t) h = ground (arith, bytes_ltb_asym s t)

bytes_ltb_weak :
    (s t u : Bytes) → bytes_ltb t s ≡ false → bytes_ltb u t ≡ false → bytes_ltb u s ≡ false
unfolding bytes_ltb
bytes_ltb_weak [] [] u h k = k
bytes_ltb_weak [] (b ∷ t) [] h k = ground arith
bytes_ltb_weak [] (b ∷ t) (c ∷ u) h k = refl
bytes_ltb_weak (a ∷ s) [] u h k = ground arith
bytes_ltb_weak (a ∷ s) (b ∷ t) [] h k = ground arith
bytes_ltb_weak (a ∷ s) (b ∷ t) (c ∷ u) h k = ground (arith, bytes_ltb_weak s t u)

-- A comparison of the texts of two elements is one that `sort.Slice` accepts.
pub by_text-IsStrictWeak :
    {A : Type 0} (key : A → Bytes) → IsStrictWeak (λ (x y : A). bytes_ltb (key x) (key y))
by_text-IsStrictWeak key = record {
  asym = λ x y. bytes_ltb_asym (key x) (key y);
  trans = λ x y z. bytes_ltb_weak (key x) (key y) (key z);
}
