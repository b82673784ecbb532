-- ===== src/Sandbox/Redact/Marker.antt =====
-- internal/sandbox/process.go: one round of `redactMarker`, on texts whose
-- markers are masked.
use harnesslab.Sandbox.Redact.{index, skip_token, is_token_char, stars}
use harnesslab.Shared.Scan.{has_prefix}
use mathlib.Core.List.{append_assoc}
use harnesslab.Shared.{
  ℕ, zero, suc, ◌+◌, ◌<◌, ◌≤◌, ◌-◌, sym, ◌≡◌, refl, ap, ◌∙◌, true, false, not, Bool, ◌&&◌, none,
  some, [], ◌∷◌, ◌++◌, Bytes, nat_eq, ◌==◌, length, take, drop, All, arith, leb, leb→le, Bool-cases,
  inl, inr, if-cases, length-append,
}

-- The text does not begin with a character of a token.
abbrev pub no_token : Bytes → Bool
no_token [] = true
no_token (c ∷ s) = not (is_token_char c)

-- Three stars, and no token behind them.
abbrev pub hidden : Bytes → Bool
hidden s = has_prefix s stars && no_token (drop 3 s)

-- Wherever the marker stands in the text, three stars follow it, and behind these no token goes on.
abbrev pub Masked : Bytes → Bytes → Type 0
Masked m [] = Unit
Masked m (b ∷ s) =
    (has_prefix (b ∷ s) m ≡ true → hidden (drop (length m) (b ∷ s)) ≡ true) × Masked m s

-- A marker that can be masked: it has a byte, and no star.
abbrev pub StarFree : Bytes → Type 0
StarFree m = All (λ c. (c == b'*') ≡ false) m

-- A text of stars behind a proper part of the marker is no marker.
no_marker :
    (m p r : Bytes) → StarFree m → length p < length m → has_prefix (p ++ (b'*' ∷ r)) m ≡ false
no_marker [] p r h k = ground arith
no_marker (c ∷ m) [] r (h, hs) k = ground (arith, h)
no_marker (c ∷ m) (d ∷ p) r (h, hs) k = ground (arith, no_marker m p r hs)

-- A prefix test reads no byte behind the prefix.
has_prefix-append :
    (m p x y : Bytes) → length m ≤ length p → has_prefix (p ++ x) m ≡ has_prefix (p ++ y) m
has_prefix-append [] p x y h = refl
has_prefix-append (c ∷ m) [] x y h = ground arith
has_prefix-append (c ∷ m) (d ∷ p) x y h =
    ap (λ b. d == c && b) (has_prefix-append m p x y (omega arith))

-- A text that is hidden at the front of `q ++ x` is still so when stars replace `x`.
stars_after :
    (q x r : Bytes) → no_token r ≡ true → hidden (q ++ x) ≡ true → hidden (q ++ (stars ++ r)) ≡ true
unfolding is_token_char
stars_after [] x r n h = n
stars_after (a ∷ []) [] r n h = ground arith
stars_after (a ∷ []) (d ∷ []) r n h = ground arith
stars_after (a ∷ []) (d ∷ e ∷ x) r n h = ground arith
stars_after (a ∷ b ∷ []) [] r n h = ground arith
stars_after (a ∷ b ∷ []) (d ∷ x) r n h = ground arith
stars_after (a ∷ b ∷ c ∷ []) x r n h = ground arith
stars_after (a ∷ b ∷ c ∷ d ∷ q) x r n h = h

drop-append_le : (n : ℕ) (p x : Bytes) → n ≤ length p → drop n (p ++ x) ≡ drop n p ++ x
drop-append_le zero p x h = refl
drop-append_le (suc n) [] x h = ground arith
drop-append_le (suc n) (b ∷ p) x h = drop-append_le n p x (omega arith)

-- What a marker is followed by, when stars replace the text behind `p`.
occurrence :
    (m p x r : Bytes)
    → StarFree m
    → no_token r ≡ true
    → (has_prefix (p ++ x) m ≡ true → hidden (drop (length m) (p ++ x)) ≡ true)
    → has_prefix (p ++ (stars ++ r)) m ≡ true
    → hidden (drop (length m) (p ++ (stars ++ r))) ≡ true
occurrence m p x r f t g e = elim (Bool-cases (leb (length m) (length p))) [
  | inl h ↦
      let le = leb→le (length m) (length p) h in
      rw (drop-append_le (length m) p (stars ++ r) le) (
        stars_after (drop (length m) p) x r t (
          rw (drop-append_le (length m) p x le) at
            (g (has_prefix-append m p x (stars ++ r) le ∙ e))))
  | inr h ↦
      let no : has_prefix (p ++ (stars ++ r)) m ≡ false =
        no_marker m p (b'*' ∷ b'*' ∷ r) f (ground arith) in
      cc
]

starless : (m r : Bytes) → StarFree m → 0 < length m → has_prefix (b'*' ∷ r) m ≡ false
starless m r f h = no_marker m [] r f h

Masked-stars : (m r : Bytes) → StarFree m → 0 < length m → Masked m r → Masked m (stars ++ r)
Masked-stars m r f h k = (
  λ e. let no = starless m (b'*' ∷ b'*' ∷ r) f h in cc,
  (λ e. let no = starless m (b'*' ∷ r) f h in cc, (λ e. let no = starless m r f h in cc, k)),
)

-- Text behind `p` that gives way to stars leaves the markers in `p` masked.
pub Masked-replaced :
    (m p x r : Bytes)
    → StarFree m
    → 0 < length m
    → no_token r ≡ true
    → Masked m (p ++ x)
    → Masked m r
    → Masked m (p ++ (stars ++ r))
Masked-replaced m [] x r f n t h k = Masked-stars m r f n k
Masked-replaced m (b ∷ p) x r f n t (g, h) k =
    (occurrence m (b ∷ p) x r f t g, Masked-replaced m p x r f n t h k)

-- No marker begins in a proper part of a marker that stars follow.
Masked-part :
    (m p r : Bytes) → StarFree m → length p < length m → Masked m r → Masked m (p ++ (stars ++ r))
Masked-part m [] r f n k = Masked-stars m r f n k
Masked-part m (b ∷ p) r f n k = (
  λ e. let no = no_marker m (b ∷ p) (b'*' ∷ b'*' ∷ r) f n in cc,
  Masked-part m p r f (omega arith) k,
)

hidden-stars : (r : Bytes) → no_token r ≡ true → hidden (stars ++ r) ≡ true
hidden-stars r t = t

drop-length : (m x : Bytes) → drop (length m) (m ++ x) ≡ x
drop-length [] x = refl
drop-length (c ∷ m) x = drop-length m x

Masked-here :
    (m r : Bytes)
    → StarFree m
    → 0 < length m
    → no_token r ≡ true
    → Masked m r
    → Masked m (m ++ (stars ++ r))
Masked-here [] r f n t k = Masked-stars [] r f n k
Masked-here (c ∷ m) r f n t k = (
  λ e. rw (drop-length m (stars ++ r)) (hidden-stars r t),
  Masked-part (c ∷ m) m r f (omega arith) k,
)

has_prefix-split : (m s : Bytes) → has_prefix s m ≡ true → s ≡ m ++ drop (length m) s
has_prefix-split [] s h = refl
has_prefix-split (c ∷ m) [] h = cc
has_prefix-split (c ∷ m) (b ∷ s) h = ground (arith, has_prefix-split m s)

drop-suc : (i n b : ℕ) (s : Bytes) → drop (suc i + n) (b ∷ s) ≡ drop (i + n) s
drop-suc i n b s = let e : suc i + n ≡ suc (i + n) = omega arith in rw e refl

-- `index` cuts the text in what stands before the marker, the marker, and the rest.
pub index-split :
    (m s : Bytes) (i : ℕ) → index s m ≡ some i → s ≡ take i s ++ (m ++ drop (i + length m) s)
unfolding index
index-split m [] i h = ground (arith, has_prefix-split m [])
index-split m (b ∷ s) zero h = ground (arith, has_prefix-split m (b ∷ s))
index-split m (b ∷ s) (suc i) h = ground (arith, index-split m s i, drop-suc i (length m) b s)

-- What replaces the text behind the first marker brings no earlier one.
no_earlier :
    (m s y : Bytes) (b i : ℕ)
    → index (b ∷ s) m ≡ some (suc i)
    → has_prefix (b ∷ (take i s ++ (m ++ y))) m ≡ false
unfolding index
no_earlier m s y b i h =
    let rest = drop (i + length m) s in
    let front = b ∷ (take i s ++ m) in
    let e : s ≡ take i s ++ (m ++ rest) = index-split m s i (ground arith) in
    let le : length m ≤ length front = omega (arith, length-append (take i s) m) in
    let same = has_prefix-append m front y rest le in
    let absent : has_prefix (b ∷ s) m ≡ false = ground arith in
    ap (λ t. has_prefix (b ∷ t) m) (sym (append_assoc (take i s) m y))
    ∙ same
    ∙ ap (λ t. has_prefix (b ∷ t) m) (append_assoc (take i s) m rest ∙ sym e)
    ∙ absent

-- In front of the place that `index` finds there is no marker.
pub Masked-found :
    (m s r : Bytes) (i : ℕ)
    → StarFree m
    → 0 < length m
    → index s m ≡ some i
    → no_token r ≡ true
    → Masked m r
    → Masked m (take i s ++ (m ++ (stars ++ r)))
unfolding index
Masked-found m s r zero f n h t k = Masked-here m r f n t k
Masked-found m [] r (suc i) f n h t k = ground arith
Masked-found m (b ∷ s) r (suc i) f n h t k = (
  λ e. let no = no_earlier m s (stars ++ r) b i h in cc,
  Masked-found m s r i f n (ground arith) t k,
)

pub no_token-skip : (s : Bytes) → no_token (skip_token s) ≡ true
unfolding skip_token
no_token-skip [] = refl
no_token-skip (c ∷ s) = elim (Bool-cases (is_token_char c)) [
  | inl e ↦ rw e (no_token-skip s)
  | inr e ↦ rw (e, e) refl
]

-- A round on a text without a token at its front leaves none there, if the marker begins with a character of a
-- token: it is not found at the front.
pub no_token-kept :
    (m s r : Bytes) (i : ℕ)
    → no_token m ≡ false
    → index s m ≡ some i
    → no_token s ≡ true
    → no_token (take i s ++ r) ≡ true
unfolding index
no_token-kept [] s r i t h n = absurd (cc t)
no_token-kept (c ∷ m) [] r i t h n = absurd (cc h)
no_token-kept (c ∷ m) (b ∷ s) r (suc i) t h n = n
no_token-kept (c ∷ m) (b ∷ s) r zero t h n = elim (Bool-cases (b == c)) [
  | inl e ↦
      let same : b ≡ c = (nat_eq.decides b c).0 e in absurd (ground (arith, ap is_token_char same))
  | inr e ↦ absurd (ground (arith, e))
]

pub Masked-absent : (m s : Bytes) → index s m ≡ none → Masked m s
unfolding index
Masked-absent m [] h = tt
Masked-absent m (b ∷ s) h = (λ e. ground arith, Masked-absent m s (ground arith))

pub Masked-drop : (m s : Bytes) (n : ℕ) → Masked m s → Masked m (drop n s)
Masked-drop m s zero h = h
Masked-drop m [] (suc n) h = h
Masked-drop m (b ∷ s) (suc n) (g, h) = Masked-drop m s n h

pub Masked-skip : (m s : Bytes) → Masked m s → Masked m (skip_token s)
unfolding skip_token
Masked-skip m [] h = h
Masked-skip m (b ∷ s) (g, h) =
    if-cases (Masked m) (is_token_char b) (λ _. Masked-skip m s h) (λ _. (g, h))

length-drop : (n : ℕ) (s : Bytes) → length (drop n s) ≡ length s - n
length-drop zero s = omega arith
length-drop (suc n) [] = omega arith
length-drop (suc n) (b ∷ s) = omega (arith, length-drop n s)

length-skip : (s : Bytes) → length (skip_token s) ≤ length s
unfolding skip_token
length-skip [] = omega arith
length-skip (b ∷ s) = ground (arith, length-skip s)

index-lt : (m s : Bytes) (i : ℕ) → 0 < length m → index s m ≡ some i → i < length s
unfolding index
index-lt [] [] i n h = ground arith
index-lt (c ∷ m) [] i n h = ground arith
index-lt m (b ∷ s) zero n h = omega arith
index-lt m (b ∷ s) (suc i) n h = ground (arith, index-lt m s i n)

-- The text behind a marker and its token is shorter than the text.
pub rest-lt :
    (m s : Bytes) (i : ℕ)
    → 0 < length m
    → index s m ≡ some i
    → length (skip_token (drop (i + length m) s)) < length s
rest-lt m s i n h =
    omega
      (arith, length-skip (drop (i + length m) s), length-drop (i + length m) s, index-lt m s i n h)
