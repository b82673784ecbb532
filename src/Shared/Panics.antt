-- ===== src/Shared/Panics.antt =====
-- Code that can stop with a panic, or with an error whose text does not matter: `none` is the stop.
use mathlib.Core.Path.{◌≡◌, refl, sym, ap, ◌∙◌}
use mathlib.Core.Logic.{inl, inr}
use Prim.Native.Nat.{suc}
use mathlib.Core.Option.{Option, none, some, some-injective}
use mathlib.Core.List.{List, [], ◌∷◌}
use harnesslab.Shared.Lists.{All, length}
use harnesslab.Shared.Tests.{Option-cases}

infixl 5 ◌>>=◌
abbrev pub ◌>>=◌ {ℓ κ} : {A : Type ℓ} {B : Type κ} → Option A → (A → Option B) → Option B
none >>= f = none
some a >>= f = f a

-- A loop over a slice whose rounds can stop it.
abbrev pub map_all {ℓ κ} : {A : Type ℓ} {B : Type κ} → (A → Option B) → List A → Option (List B)
map_all f [] = some []
map_all f (x ∷ xs) = do y ← f x; ys ← map_all f xs; some (y ∷ ys)

-- The code gives a value.
abbrev pub Returns {ℓ} : {A : Type ℓ} → Option A → Type ℓ
Returns {A} o = (a : A) × (o ≡ some a)

pub >>=-Returns {ℓ κ} :
    {A : Type ℓ} {B : Type κ} (o : Option A) (f : A → Option B)
    → Returns o
    → ((a : A) → Returns (f a))
    → Returns (o >>= f)
>>=-Returns o f (a, e) h = rw e (h a)

pub >>=-eq-some {ℓ κ} :
    {A : Type ℓ} {B : Type κ} (o : Option A) (f : A → Option B) (b : B)
    → (o >>= f) ≡ some b
    → (a : A) × (o ≡ some a) × (f a ≡ some b)
>>=-eq-some none f b h = absurd (cc h)
>>=-eq-some (some a) f b h = (a, refl, h)

pub map_all-Returns {ℓ κ} :
    {A : Type ℓ} {B : Type κ} (f : A → Option B) (P : A → Type ℓ) (xs : List A)
    → ((x : A) → P x → Returns (f x))
    → All P xs
    → Returns (map_all f xs)
map_all-Returns f P [] h k = ([], refl)
map_all-Returns f P (x ∷ xs) h (p, k) =
    let (y, e) = h x p in let (ys, q) = map_all-Returns f P xs h k in rw (e, q) (y ∷ ys, refl)

-- A loop that ends has made one value for each element.
pub length-map_all {ℓ κ} :
    {A : Type ℓ} {B : Type κ} (f : A → Option B) (xs : List A) (ys : List B)
    → map_all f xs ≡ some ys
    → length ys ≡ length xs
length-map_all f [] [] h = refl
length-map_all f [] (y ∷ ys) h = cc
length-map_all f (x ∷ xs) ys h = elim (Option-cases (f x)) [
  | inl e ↦ let no = rw e at h in cc
  | inr (y, e) ↦ elim (Option-cases (map_all f xs)) [
    | inl q ↦ let no = rw (e, q) at h in cc
    | inr (zs, q) ↦
        let k = some-injective (y ∷ zs) ys (rw (e, q) at h) in
        sym (ap length k) ∙ ap suc (length-map_all f xs zs q)
  ]
]
