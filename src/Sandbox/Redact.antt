-- ===== src/Sandbox/Redact.antt =====
-- internal/sandbox/process.go: `redactSecrets`, which masks what looks like a secret in the output of a
-- command. The loop of `redactMarker` runs on fuel, one unit for each byte of the text and one more.
pub mod Marker
pub mod Masking
pub mod Enough
use harnesslab.Shared.Scan.{has_prefix}
use harnesslab.Shared.{
  ℕ, zero, suc, ◌+◌, Bool, ◌&&◌, ◌||◌, Option, none, some, List, [], ◌∷◌, ◌++◌, Bytes, bytes,
  nat_eq, ◌==◌, leb, length, take, drop, if◌then◌else◌,
}

abbrev next_index : Option ℕ → Option ℕ
next_index none = none
next_index (some i) = some (suc i)

-- `strings.Index`, where no index is -1 in the source.
unfoldable pub index : Bytes → Bytes → Option ℕ
index [] m = if has_prefix [] m then some 0 else none
index (b ∷ s) m = let rest = index s m in if has_prefix (b ∷ s) m then some 0 else next_index rest

unfoldable pub is_token_char : ℕ → Bool
is_token_char c =
    leb b'a' c && leb c b'z'
    || leb b'A' c && leb c b'Z'
    || leb b'0' c && leb c b'9'
    || c == b'-'
    || c == b'_'

-- The inner loop: the text from the first byte that is no part of a token.
unfoldable pub skip_token : Bytes → Bytes
unfolding is_token_char
skip_token [] = []
skip_token (c ∷ s) = let rest = skip_token s in if is_token_char c then rest else c ∷ s

abbrev pub stars : Bytes
stars = b'*' ∷ b'*' ∷ b'*' ∷ []

-- One round, `again` being the rounds that follow.
unfoldable pub redact_at : (Bytes → Bytes) → Bytes → Bytes → Option ℕ → Bytes
unfolding skip_token
redact_at again m s none = s
redact_at again m s (some i) =
    take i s ++ (m ++ (stars ++ again (skip_token (drop (i + length m) s))))

unfoldable pub redact_loop : ℕ → Bytes → Bytes → Bytes
unfolding index redact_at
redact_loop zero m s = s
redact_loop (suc n) m s = redact_at (redact_loop n m) m s (index s m)

unfoldable pub redact_marker : Bytes → Bytes → Bytes
unfolding redact_loop
redact_marker s m = redact_loop (suc (length s)) m s

unfoldable pub redact_all : List Bytes → Bytes → Bytes
unfolding redact_marker
redact_all [] s = s
redact_all (m ∷ ms) s = redact_all ms (redact_marker s m)

abbrev pub markers : List Bytes
markers = bytes "sk-" ∷ bytes "ghp_" ∷ bytes "github_pat_" ∷ bytes "xoxb-" ∷ []

unfoldable pub redact_secrets : Bytes → Bytes
unfolding redact_all
redact_secrets s = redact_all markers s
