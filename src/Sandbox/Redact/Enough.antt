-- ===== src/Sandbox/Redact/Enough.antt =====
-- internal/sandbox/process.go: the fuel of `redactMarker`, whose loop in the source has no bound.
use harnesslab.Sandbox.Redact.{index, skip_token, stars, redact_at, redact_loop, redact_marker}
use harnesslab.Sandbox.Redact.Marker.{rest-lt}
use harnesslab.Shared.{
  ℕ, zero, suc, ◌+◌, ◌<◌, ◌≡◌, refl, ap, ◌++◌, Bytes, length, take, drop, arith, Option-cases, inl,
  inr,
}

-- Two amounts of fuel that both exceed the length of the text give the same.
same_text :
    (n k : ℕ) (m s : Bytes)
    → 0 < length m
    → length s < n
    → length s < k
    → redact_loop n m s ≡ redact_loop k m s
unfolding redact_loop redact_at
same_text zero k m s f h g = ground arith
same_text (suc n) zero m s f h g = ground arith
same_text (suc n) (suc k) m s f h g = elim (Option-cases (index s m)) [
  | inl e ↦ rw (redact_loop, e) refl
  | inr (i, e) ↦
      let rest = skip_token (drop (i + length m) s) in
      let lt = rest-lt m s i f e in
      rw (redact_loop, e)
        (ap (λ t. take i s ++ (m ++ (stars ++ t)))
          (same_text n k m rest f (omega (arith, lt)) (omega (arith, lt))))
]

marker_round :
    (m s : Bytes)
    → 0 < length m
    → redact_marker s m ≡ redact_at (λ t. redact_marker t m) m s (index s m)
unfolding redact_marker redact_loop redact_at
marker_round m s f = elim (Option-cases (index s m)) [
  | inl e ↦ rw (redact_loop, e) refl
  | inr (i, e) ↦
      let rest = skip_token (drop (i + length m) s) in
      rw (redact_loop, e)
        (ap (λ t. take i s ++ (m ++ (stars ++ t)))
          (same_text (length s) (suc (length rest)) m rest f (rest-lt m s i f e) (omega arith)))
]

-- The loop ends: for a marker that is not empty, any fuel above the length of the text gives what
-- `redact_marker` gives, and that is one round followed by `redact_marker` of what the round leaves.
pub redact_marker-loop :
    (m s : Bytes)
    → 0 < length m
    → ((fuel : ℕ) → length s < fuel → redact_loop fuel m s ≡ redact_marker s m)
      × (redact_marker s m ≡ redact_at (λ t. redact_marker t m) m s (index s m))
unfolding redact_marker
redact_marker-loop m s f =
    (λ fuel h. same_text fuel (suc (length s)) m s f h (omega arith), marker_round m s f)
