-- ===== src/Sandbox/Environ.antt =====
-- internal/sandbox/sandbox.go: `scrubEnv`, the environment that a command of the process sandbox gets.
-- `strings.ToUpper` is that of ASCII.
use harnesslab.Shared.Scan.{has_prefix, contains}
use harnesslab.Shared.{
  ℕ, ◌-◌, ◌≡◌, refl, ◌∙◌, Bool, false, not, ◌&&◌, ◌||◌, Option, none, some, List, [], ◌∷◌, Bytes,
  bytes, nat_eq, ◌==◌, leb, if◌then◌else◌, arith, sym, ◌++◌, ap, true, All, In,
}

abbrev pub to_upper : Bytes → Bytes
to_upper [] = []
to_upper (c ∷ s) = (if leb b'a' c && leb c b'z' then c - 32 else c) ∷ to_upper s

abbrev longer : ℕ → Option Bytes → Option Bytes
longer b none = none
longer b (some key) = some (b ∷ key)

-- What stands before the first `=`, as `strings.Cut` gives it.
abbrev pub cut_key : Bytes → Option Bytes
cut_key [] = none
cut_key (b ∷ s) = let rest = longer b (cut_key s) in if b == b'=' then some [] else rest

abbrev pub is_secret : Bytes → Bool
is_secret upper =
    contains upper (bytes "API_KEY")
    || contains upper (bytes "TOKEN")
    || contains upper (bytes "SECRET")
    || contains upper (bytes "PASSWORD")

abbrev pub is_public : Option Bytes → Bool
is_public none = false
is_public (some key) = not (is_secret (to_upper key))

unfoldable pub scrub_env : List Bytes → List Bytes
scrub_env [] = []
scrub_env (kv ∷ env) =
    let rest = scrub_env env in if is_public (cut_key kv) then kv ∷ rest else rest

scrub_env-append : (xs ys : List Bytes) → scrub_env (xs ++ ys) ≡ scrub_env xs ++ scrub_env ys
unfolding scrub_env
scrub_env-append [] ys = refl
scrub_env-append (kv ∷ xs) ys = ground (arith, scrub_env-append xs ys)

-- A variable that is not public is as good as absent.
pub scrub_env-without :
    (xs ys : List Bytes) (kv : Bytes)
    → is_public (cut_key kv) ≡ false
    → scrub_env (xs ++ kv ∷ ys) ≡ scrub_env (xs ++ ys)
unfolding scrub_env
scrub_env-without xs ys kv h = scrub_env-append xs (kv ∷ ys) ∙ rw h (sym (scrub_env-append xs ys))

-- A text that holds another one contains it.
has_prefix-here : (w rest : Bytes) → has_prefix (w ++ rest) w ≡ true
has_prefix-here [] rest = refl
has_prefix-here (c ∷ w) rest = ground (arith, has_prefix-here w rest)

contains-here : (w rest : Bytes) → contains (w ++ rest) w ≡ true
contains-here [] [] = refl
contains-here [] (b ∷ rest) = refl
contains-here (c ∷ w) rest = ground (arith, has_prefix-here (c ∷ w) rest)

contains-inside : (p w rest : Bytes) → contains (p ++ (w ++ rest)) w ≡ true
contains-inside [] w rest = contains-here w rest
contains-inside (b ∷ p) w rest = ground (arith, contains-inside p w rest)

to_upper-append : (s t : Bytes) → to_upper (s ++ t) ≡ to_upper s ++ to_upper t
to_upper-append [] t = refl
to_upper-append (c ∷ s) t =
    ap (λ u. (if leb b'a' c && leb c b'z' then c - 32 else c) ∷ u) (to_upper-append s t)

-- What names a secret, in upper case.
abbrev pub secret_words : List Bytes
secret_words = bytes "API_KEY" ∷ bytes "TOKEN" ∷ bytes "SECRET" ∷ bytes "PASSWORD" ∷ []

one_of_four :
    (a b c d : Bool)
    → (a ≡ true → (a || b || c || d) ≡ true)
      × (b ≡ true → (a || b || c || d) ≡ true)
      × (c ≡ true → (a || b || c || d) ≡ true)
      × (d ≡ true → (a || b || c || d) ≡ true)
one_of_four a b c d = (λ h. ground arith, λ h. ground arith, λ h. ground arith, λ h. ground arith)

secret_words-secret : (p w rest : Bytes) → In w secret_words → is_secret (p ++ (w ++ rest)) ≡ true
secret_words-secret p w rest i =
    let s = p ++ (w ++ rest) in
    let has = λ (v : Bytes) (e : v ≡ w). ap (contains s) e ∙ contains-inside p w rest in
    let (api_key, token, secret, password) =
      one_of_four (contains s (bytes "API_KEY")) (contains s (bytes "TOKEN"))
        (contains s (bytes "SECRET")) (contains s (bytes "PASSWORD")) in
    elim i [
      | In.here e ↦ api_key (has (bytes "API_KEY") e)
      | In.there (In.here e) ↦ token (has (bytes "TOKEN") e)
      | In.there (In.there (In.here e)) ↦ secret (has (bytes "SECRET") e)
      | In.there (In.there (In.there (In.here e))) ↦ password (has (bytes "PASSWORD") e)
      | In.there (In.there (In.there (In.there k))) ↦ elim k [ ]
    ]

abbrev pub NoEquals : Bytes → Type 0
NoEquals key = All (λ c. (c == b'=') ≡ false) key

cut_key-found : (key value : Bytes) → NoEquals key → cut_key (key ++ (b'=' ∷ value)) ≡ some key
cut_key-found [] value h = refl
cut_key-found (c ∷ key) value (e, h) = rw (e, cut_key-found key value h) refl

-- A variable whose name contains one of the words, in any case of the letters, is not public.
pub secret_name-hidden :
    (p u q value w : Bytes)
    → In w secret_words
    → to_upper u ≡ w
    → NoEquals (p ++ (u ++ q))
    → is_public (cut_key ((p ++ (u ++ q)) ++ (b'=' ∷ value))) ≡ false
secret_name-hidden p u q value w i e n =
    let upper : to_upper (p ++ (u ++ q)) ≡ to_upper p ++ (w ++ to_upper q) =
      to_upper-append p (u ++ q)
      ∙ ap (λ t. to_upper p ++ t) (to_upper-append u q ∙ ap (λ x. x ++ to_upper q) e) in
    rw
      (
        cut_key-found (p ++ (u ++ q)) value n,
        upper,
        secret_words-secret (to_upper p) w (to_upper q) i,
      )
      refl
