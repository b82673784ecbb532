-- ===== src/Sandbox/Redact/Masking.antt =====
-- internal/sandbox/process.go: what `redactSecrets` leaves behind a marker.
use harnesslab.Sandbox.Redact.Marker.{
  Masked, StarFree, no_token, no_token-skip, no_token-kept, Masked-replaced, index-split,
  Masked-found, Masked-absent, Masked-drop, Masked-skip, rest-lt,
}
use harnesslab.Sandbox.Redact.{
  index, skip_token, stars, redact_at, redact_loop, redact_marker, redact_all, markers,
  redact_secrets, is_token_char,
}
use mathlib.Core.List.{append_assoc}
use mathlib.Core.Path.{subst}
use harnesslab.Shared.{
  ℕ, zero, suc, ◌+◌, ◌<◌, sym, true, false, ◌≡◌, ◌∙◌, List, [], ◌∷◌, ◌++◌, Bytes, nat_eq, length,
  take, drop, All, In, arith, Option-cases, inl, inr,
}

-- What stands in front of the first marker stays there.
redact_loop-no_token :
    (m : Bytes)
    → no_token m ≡ false
    → (fuel : ℕ) (s : Bytes) → no_token s ≡ true
    → no_token (redact_loop fuel m s) ≡ true
unfolding redact_loop redact_at
redact_loop-no_token m t zero s h = h
redact_loop-no_token m t (suc fuel) s h = elim (Option-cases (index s m)) [
  | inl e ↦ rw (redact_loop, e) h
  | inr (i, e) ↦ rw (redact_loop, e) (no_token-kept m s _ i t e h)
]

module _ (m : Bytes) (f : StarFree m) (n : 0 < length m) where
  redact_loop-Masked :
      no_token m ≡ false
      → (fuel : ℕ) (s : Bytes) → length s < fuel
      → Masked m (redact_loop fuel m s)
  unfolding redact_loop redact_at
  redact_loop-Masked t zero s h = ground arith
  redact_loop-Masked t (suc fuel) s h = elim (Option-cases (index s m)) [
    | inl e ↦ rw (redact_loop, e) (Masked-absent m s e)
    | inr (i, e) ↦
        let rest = skip_token (drop (i + length m) s) in
        rw (redact_loop, e)
          (Masked-found m s (redact_loop fuel m rest) i f n e
            (redact_loop-no_token m t fuel rest (no_token-skip (drop (i + length m) s)))
            (redact_loop-Masked t fuel rest (omega (arith, rest-lt m s i n e))))
  ]

  -- Masking another marker keeps this one masked.
  redact_loop-keeps_Masked :
      (fuel : ℕ) (o s : Bytes) → no_token o ≡ false → Masked m s → Masked m (redact_loop fuel o s)
  unfolding redact_loop redact_at
  redact_loop-keeps_Masked zero o s t h = h
  redact_loop-keeps_Masked (suc fuel) o s t h = elim (Option-cases (index s o)) [
    | inl e ↦ rw (redact_loop, e) h
    | inr (i, e) ↦
        let rest = drop (i + length o) s in
        let tail = redact_loop fuel o (skip_token rest) in
        let k =
          redact_loop-keeps_Masked fuel o (skip_token rest) t
            (Masked-skip m rest (Masked-drop m s (i + length o) h)) in
        let cut : s ≡ (take i s ++ o) ++ rest =
          index-split o s i e ∙ sym (append_assoc (take i s) o rest) in
        rw (redact_loop, e, sym (append_assoc (take i s) o (stars ++ tail)))
          (Masked-replaced m (take i s ++ o) rest tail f n
            (redact_loop-no_token o t fuel (skip_token rest) (no_token-skip rest))
            (subst (Masked m) cut h) k)
  ]

  redact_all-keeps_Masked :
      (ms : List Bytes) (s : Bytes)
      → All (λ o. StarFree o × (0 < length o) × (no_token o ≡ false)) ms
      → Masked m s
      → Masked m (redact_all ms s)
  unfolding redact_all redact_marker
  redact_all-keeps_Masked [] s ts h = h
  redact_all-keeps_Masked (o ∷ ms) s ((_, _, t), ts) h =
      redact_all-keeps_Masked ms _ ts (redact_loop-keeps_Masked (suc (length s)) o s t h)

redact_all-Masked :
    (m : Bytes) (ms : List Bytes) (s : Bytes)
    → All (λ o. StarFree o × (0 < length o) × (no_token o ≡ false)) ms
    → In m ms
    → Masked m (redact_all ms s)
unfolding redact_all redact_marker
redact_all-Masked m [] s fs i = elim i [ ]
redact_all-Masked m (o ∷ ms) s ((f, n, t), fs) (In.here e) =
    subst (λ x. Masked x (redact_all ms (redact_marker s o))) e
      (redact_all-keeps_Masked o f n ms _ fs
        (redact_loop-Masked o f n t (suc (length s)) s (omega arith)))
redact_all-Masked m (o ∷ ms) s (f, fs) (In.there i) = redact_all-Masked m ms _ fs i

-- In the redacted output, wherever one of the four markers stands, three stars follow it, and no character of a
-- token follows these.
pub redact_secrets-Masked : (m : Bytes) (s : Bytes) → In m markers → Masked m (redact_secrets s)
unfolding redact_secrets is_token_char
redact_secrets-Masked m s i = redact_all-Masked m markers s (ground arith) i
