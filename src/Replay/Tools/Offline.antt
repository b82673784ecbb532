-- ===== src/Replay/Tools/Offline.antt =====
-- internal/runtime/trpc/replay.go: a recording and its replay.
use harnesslab.Replay.Canonical.{Json, Canonicalizer, Coder, hash}
use harnesslab.Replay.Store.{
  Entry, Journal, Found, kind_tool, scan, lookup, put, intact, or_later, scan-append,
}
use harnesslab.Replay.Tools.{
  ReplayMode, ToolCall, Decision, recorded_entry, put_entry, after_tool, decide, decide_hash,
  before_tool,
}
use mathlib.Core.List.{append_assoc, append-nil}
use harnesslab.Shared.{
  ℕ, ◌≡◌, refl, ap, ◌∙◌, Bool, true, false, ◌&&◌, Option, none, some, List, [], ◌∷◌, ◌++◌, Bytes,
  bytes_eq, ◌==◌, ◌≢◌, if-cases,
}

abbrev pub runs_tool : Decision → Bool
runs_tool Decision.run_tool = true
runs_tool _ = false

module _ (coder : Coder) (c : Canonicalizer) (depth : ℕ) where
  -- The journal after further calls, each with its time.
  abbrev pub record_all : List (ℕ × ToolCall) → Journal → Journal
  unfolding after_tool
  record_all [] j = j
  record_all ((now, call) ∷ calls) j = record_all calls (after_tool coder c depth now call j)

  abbrev entry_lines : Option Entry → List (Option Entry)
  entry_lines none = []
  entry_lines (some e) = some e ∷ []

  lines_of : List (ℕ × ToolCall) → List (Option Entry)
  lines_of [] = []
  lines_of ((now, call) ∷ calls) =
      entry_lines (recorded_entry coder c depth now call) ++ lines_of calls

  put_entry-lines :
      (o : Option Entry) (j : Journal)
      → j.writable ≡ true
      → put_entry coder c depth o j ≡ record j { lines = j.lines ++ entry_lines o }
  unfolding put_entry put
  put_entry-lines none j w = rw (append-nil j.lines) refl
  put_entry-lines (some e) j w = rw w refl

  record_all-lines :
      (calls : List (ℕ × ToolCall)) (j : Journal)
      → j.writable ≡ true
      → record_all calls j ≡ record j { lines = j.lines ++ lines_of calls }
  unfolding record_all after_tool lines_of
  record_all-lines [] j w = rw (append-nil j.lines) refl
  record_all-lines ((now, call) ∷ calls) j w =
      let o = recorded_entry coder c depth now call in
      rw (put_entry-lines o j w) (
        record_all-lines calls (record j { lines = j.lines ++ entry_lines o }) w
        ∙ ap (λ ls. record j { lines = ls })
            (append_assoc j.lines (entry_lines o) (lines_of calls)))

  -- What is found in a readable and undamaged journal is found there after any further recordings.
  found-record_all :
      (kind h out : Bytes) (calls : List (ℕ × ToolCall)) (j : Journal)
      → j.readable ≡ true
      → j.writable ≡ true
      → intact j.lines ≡ true
      → lookup kind h j ≡ Found.found out
      → lookup kind h (record_all calls j) ≡ Found.found out
  unfolding lookup
  found-record_all kind h out calls j r w i f =
      rw (record_all-lines calls j w, r)
        (scan-append kind h j.lines (lines_of calls) i
          ∙ ap (λ x. or_later x (scan kind h (lines_of calls))) (rw r at f))

  -- The recorded calls answer in their order: once a journal, readable and undamaged, has an entry for
  -- a call, the replay of that call is the same after any further recordings, whatever their results.
  pub before_tool-first :
      (mode : ReplayMode) (name args h out : Bytes) (calls : List (ℕ × ToolCall)) (j : Journal)
      → j.readable ≡ true
      → j.writable ≡ true
      → intact j.lines ≡ true
      → hash coder c depth kind_tool name args ≡ some h
      → lookup kind_tool h j ≡ Found.found out
      → before_tool coder c depth mode name args (record_all calls j)
        ≡ before_tool coder c depth mode name args j
  unfolding before_tool decide_hash
  before_tool-first mode name args h out calls j r w i e f =
      rw (e, found-record_all kind_tool h out calls j r w i f, f) refl

  -- Every output in the lines is a JSON document.
  abbrev pub Decodable : List (Option Entry) → Type 0
  Decodable [] = Unit
  Decodable (none ∷ lines) = Decodable lines
  Decodable (some e ∷ lines) = ((v : Json) × (coder.unmarshal e.output ≡ some v)) × Decodable lines

  abbrev Decoded : Found → Type 0
  Decoded (Found.found out) = (v : Json) × (coder.unmarshal out ≡ some v)
  Decoded _ = Unit

  scan-Decoded :
      (kind h : Bytes) (lines : List (Option Entry)) → Decodable lines → Decoded (scan kind h lines)
  unfolding scan
  scan-Decoded kind h [] d = tt
  scan-Decoded kind h (none ∷ lines) d = tt
  scan-Decoded kind h (some e ∷ lines) (d, ds) =
      if-cases Decoded (e.kind == kind && e.input_hash == h) (λ _. d)
        (λ _. scan-Decoded kind h lines ds)

  decide-offline :
      (name h : Bytes) (f : Found)
      → f ≢ Found.unreadable
      → Decoded f
      → runs_tool (decide coder c depth ReplayMode.strict name h f) ≡ false
  decide-offline name h Found.unreadable n d = absurd (n refl)
  decide-offline name h Found.missing n d = refl
  decide-offline name h (Found.found out) n (v, u) = rw u refl

  scan-readable :
      (kind h : Bytes) (lines : List (Option Entry)) → scan kind h lines ≢ Found.unreadable
  unfolding scan
  scan-readable kind h [] = λ e. cc
  scan-readable kind h (none ∷ lines) = λ e. cc
  scan-readable kind h (some e ∷ lines) =
      if-cases (λ f. f ≢ Found.unreadable) (e.kind == kind && e.input_hash == h) (λ _ q. cc)
        (λ _. scan-readable kind h lines)

  -- The mode strict is offline as long as the journal can be read and its outputs are JSON: no call
  -- whose hash can be computed runs its tool. If the journal cannot be read, every call runs its tool.
  pub before_tool-strict :
      (name args h : Bytes) (j : Journal)
      → hash coder c depth kind_tool name args ≡ some h
      → Decodable j.lines
      → (j.readable ≡ true
          → runs_tool (before_tool coder c depth ReplayMode.strict name args j) ≡ false)
        × (j.readable ≡ false
            → runs_tool (before_tool coder c depth ReplayMode.strict name args j) ≡ true)
  unfolding before_tool decide_hash lookup
  before_tool-strict name args h j e d = (
    λ r.
        rw (e, r)
          (decide-offline name h _ (scan-readable kind_tool h j.lines)
            (scan-Decoded kind_tool h j.lines d)),
    λ r. rw (e, r) refl,
  )
