-- ===== src/Replay/Tests.antt =====
-- internal/replay and internal/runtime/trpc/replay.go: a call recorded in one workspace and replayed in
-- another. The coder of JSON here reads `"t` as a text and `[t` as an array of one text.
use harnesslab.Trpc.Event.{Message}
use harnesslab.Replay.Canonical.{
  Json, Items, map_texts, Canonicalizer, Coder, normalize_string, normalize_text, normalize_nested,
  normalize_value, normalize, hash,
}
use harnesslab.Replay.Canonical.Depth.{Texts, normalize-enough}
use harnesslab.Replay.Store.{Entry, Journal, Found, kind_tool, scan, lookup}
use harnesslab.Replay.Tools.{ReplayMode, ToolCall, before_tool}
use harnesslab.Replay.Tools.Offline.{runs_tool, before_tool-strict}
use harnesslab.Replay.Model.{
  Response, Request, FinalResponse, no_response, add_responses, generate_content,
}
use harnesslab.Replay.Model.Aggregate.{
  choices_of, deltas, messages_before, aggregate-content, generate_content-offline,
}
use mathlib.Core.Path.{subst}
use mathlib.Core.Option.{some-injective}
use harnesslab.Shared.Text.{bytes_beq}
use harnesslab.Shared.Scan.{trim_space-le, replace_all}
use harnesslab.Shared.{
  ℕ, ◌<◌, ◌≡◌, refl, true, false, Option, none, some, List, [], ◌∷◌, ◌++◌, Bytes, bytes, bytes_eq,
  nat_eq, ◌==◌, length, if◌then◌else◌, arith, Bool-cases, inl, inr,
}

abbrev parsed : Bytes → Option Json
parsed [] = none
parsed (b ∷ t) =
    if b == b'"'
    then some (Json.text t)
    else if b == b'['
    then some (Json.array (Items.item (Json.text t) Items.no_items))
    else none

abbrev printed_text : Json → Option Bytes
printed_text (Json.text t) = some (b'"' ∷ t)
printed_text (Json.array (Items.item (Json.text t) Items.no_items)) = some (b'[' ∷ t)
printed_text (Json.object fs) = some (bytes "{")
printed_text _ = none

abbrev pub coder : Coder
coder = record { unmarshal = parsed; marshal = printed_text; sha256_hex = λ s. s }

abbrev pub place : Bytes → Canonicalizer
place root = record { workspace_root = root; temp_dir = [] }

-- The same call in two places has one hash, also where the path stands in a nested document.
two_places :
    hash coder (place (bytes "/w1")) 9 kind_tool (bytes "ls") (bytes "\"[/w1/a")
    ≡ hash coder (place (bytes "/other")) 9 kind_tool (bytes "ls") (bytes "\"[/other/a")
unfolding hash normalize normalize_value normalize_text normalize_nested map_texts normalize_string
    replace_all bytes_beq
two_places = refl

small_documents : (s : Bytes) (v : Json) → parsed s ≡ some v → Texts (λ t. length t < length s) v
small_documents [] v e = cc
small_documents (b ∷ t) v e =
    let P : Json → Type 0 = Texts (λ u. length u < length (b ∷ t)) in
    elim (Bool-cases (b == b'"')) [
      | inl f ↦ subst P (some-injective (Json.text t) v (rw f at e)) (omega arith)
      | inr f ↦ elim (Bool-cases (b == b'[')) [
        | inl g ↦
            subst P
              (some-injective (Json.array (Items.item (Json.text t) Items.no_items)) v
                (rw (f, g) at e))
              (omega arith, tt)
        | inr g ↦ let no = rw (f, g) at e in cc
      ]
    ]

normalize-enough_example :
    normalize coder (place (bytes "/w1")) 20 (bytes "\"[/w1/a")
    ≡ normalize coder (place (bytes "/w1")) 8 (bytes "\"[/w1/a")
normalize-enough_example =
    normalize-enough coder (place (bytes "/w1")) length trim_space-le small_documents 20 8
      (bytes "\"[/w1/a") (omega arith) (omega arith)

abbrev call : Bytes → ToolCall
call result = record {
  tool_name = bytes "ls";
  arguments = bytes "\"/w1/a";
  erred = false;
  result = some (Json.text result);
}

abbrev empty : Journal
empty = record { lines = []; readable = true; writable = true }

abbrev pub entry : Entry
entry = record {
  kind = kind_tool;
  input_hash = kind_tool ++ (0 ∷ (bytes "ls" ++ (0 ∷ bytes "\"$WORKSPACE/a")));
  input = bytes "\"/w1/a";
  output = bytes "\"b";
  created_at = 5;
}

pub same_hash :
    hash coder (place (bytes "/w1")) 9 kind_tool (bytes "ls") (bytes "\"/w1/a")
    ≡ some entry.input_hash
unfolding hash normalize normalize_value normalize_text normalize_nested map_texts normalize_string
    replace_all bytes_beq
same_hash = refl

abbrev again : List (ℕ × ToolCall)
again = (6, call (bytes "c")) ∷ []

abbrev pub one_line : Journal
one_line = record empty { lines = some entry ∷ [] }

seen : lookup kind_tool entry.input_hash one_line ≡ Found.found (bytes "\"b")
unfolding lookup scan bytes_beq
seen = refl

before_tool-strict_example :
    (one_line.readable ≡ true
      → runs_tool (
          before_tool coder
            (place (bytes "/w1"))
            9
            ReplayMode.strict
            (bytes "ls")
            (bytes "\"/w1/a")
            one_line)
        ≡ false)
    × (one_line.readable ≡ false
        → runs_tool (
            before_tool coder
              (place (bytes "/w1"))
              9
              ReplayMode.strict
              (bytes "ls")
              (bytes "\"/w1/a")
              one_line)
          ≡ true)
before_tool-strict_example =
    before_tool-strict coder (place (bytes "/w1")) 9 (bytes "ls") (bytes "\"/w1/a") entry.input_hash
      one_line same_hash ((Json.text (bytes "b"), refl), tt)

abbrev message : Bytes → Message
message text = record { content = text; tool_calls = []; tool_id = [] }

abbrev frame : Bytes → Bytes → Response
frame delta text = record {
  model = bytes "m";
  choices = record { delta = message delta; message = message text } ∷ [];
  usage = none;
}

abbrev streamed : List Response
streamed = frame (bytes "he") [] ∷ frame (bytes "llo") [] ∷ frame [] (bytes "hello") ∷ []

stored_content : (add_responses streamed no_response).content ≡ bytes "hello"
unfolding add_responses bytes_beq
stored_content = refl

aggregate-content_example :
    (add_responses streamed no_response).content
    ≡ messages_before (choices_of streamed) ++ deltas (choices_of streamed)
aggregate-content_example = aggregate-content streamed

abbrev request : Request
request = record {
  messages = Json.null;
  config = Json.null;
  structured_output = Json.null;
  tools = [];
}

abbrev no_encoding : FinalResponse → Option Bytes
no_encoding f = none

abbrev no_decoding : Bytes → Option Response
no_decoding text = none

abbrev array_of : List Json → Json
array_of js = Json.null

generate_content-offline_example :
    generate_content coder
      (place [])
      9
      array_of
      no_encoding
      no_decoding
      (λ r. some streamed)
      []
      0
      ReplayMode.strict
      request
      one_line
    ≡ generate_content coder
        (place [])
        9
        array_of
        no_encoding
        no_decoding
        (λ r. none)
        []
        0
        ReplayMode.strict
        request
        one_line
generate_content-offline_example =
    generate_content-offline coder (place []) 9 array_of no_encoding no_decoding
      (λ r. some streamed) (λ r. none) [] 0 request one_line
