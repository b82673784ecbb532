-- ===== src/Replay/Store.antt =====
-- internal/replay/replay.go and jsonstore.go: the journal of recorded calls, one line for each.
use harnesslab.Shared.{
  ℕ, ◌≡◌, refl, Bool, true, false, ◌&&◌, Option, none, some, List, [], ◌∷◌, ◌++◌, Bytes, bytes,
  bytes_eq, ◌==◌, if◌then◌else◌, Bool-cases, inl, inr,
}

abbrev pub kind_tool : Bytes
kind_tool = bytes "tool"

abbrev pub kind_model : Bytes
kind_model = bytes "model"

pub record Entry : Type 0 where
  pub kind : Bytes
  pub input_hash : Bytes
  pub input : Bytes
  pub output : Bytes
  pub created_at : ℕ

-- The file of a store: its lines, of which some cannot be decoded, and whether it can be read (`Sync`
-- and `Seek` succeed) and appended to.
pub record Journal : Type 0 where
  pub lines : List (Option Entry)
  pub readable : Bool
  pub writable : Bool

-- What `Lookup` returns: the error, no entry, or its output.
pub data Found : Type 0 where
  unreadable : Found
  missing : Found
  found : Bytes → Found

-- The loop over the entries, which ends at a line that cannot be decoded.
unfoldable pub scan : Bytes → Bytes → List (Option Entry) → Found
scan kind hash [] = Found.missing
scan kind hash (none ∷ lines) = Found.missing
scan kind hash (some e ∷ lines) =
    let later = scan kind hash lines in
    if e.kind == kind && e.input_hash == hash then Found.found e.output else later

unfoldable pub lookup : Bytes → Bytes → Journal → Found
unfolding scan
lookup kind hash j = if j.readable then scan kind hash j.lines else Found.unreadable

unfoldable pub put : Entry → Journal → Journal
put e j = record j { lines = if j.writable then j.lines ++ some e ∷ [] else j.lines }

-- No line is damaged.
abbrev pub intact : List (Option Entry) → Bool
intact [] = true
intact (none ∷ lines) = false
intact (some e ∷ lines) = intact lines

abbrev pub or_later : Found → Found → Found
or_later (Found.found out) later = Found.found out
or_later Found.missing later = later
or_later Found.unreadable later = later

-- The entries of an undamaged file are searched in their order.
pub scan-append :
    (kind hash : Bytes) (xs ys : List (Option Entry))
    → intact xs ≡ true
    → scan kind hash (xs ++ ys) ≡ or_later (scan kind hash xs) (scan kind hash ys)
unfolding scan
scan-append kind hash [] ys h = refl
scan-append kind hash (none ∷ xs) ys h = cc
scan-append kind hash (some e ∷ xs) ys h =
    elim (Bool-cases (e.kind == kind && e.input_hash == hash)) [
      | inl t ↦ rw t refl
      | inr t ↦ rw t (scan-append kind hash xs ys h)
    ]
