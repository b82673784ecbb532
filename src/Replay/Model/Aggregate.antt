-- ===== src/Replay/Model/Aggregate.antt =====
-- internal/runtime/trpc/replay.go: what the aggregator keeps of a stream, and which calls are live.
use harnesslab.Trpc.Event.{Choice}
use harnesslab.Replay.Canonical.{Json, Canonicalizer, Coder, hash}
use harnesslab.Replay.Store.{Journal, Found, lookup, kind_model}
use harnesslab.Replay.Tools.{ReplayMode}
use harnesslab.Replay.Model.{
  Response, Aggregator, no_response, delta_of, add_choice, add_choices, add_response, add_responses,
  FinalResponse, Request, generate_content, or_usage, served, serve, with_input, with_hash, by_mode,
  replay_call, canonicalize_model_request,
}
use mathlib.Core.List.{append_assoc, append-nil}
use harnesslab.Shared.Text.{bytes_beq, bytes_beq_iff}
use harnesslab.Shared.{
  ℕ, ◌≡◌, refl, sym, ap, ◌∙◌, Bool, true, false, not, Option, none, some, List, [], ◌∷◌, ◌++◌,
  Bytes, bytes_eq, ◌==◌, if◌then◌else◌, bytes, Option-cases, Bool-cases, inl, inr,
}

-- The choices of a stream in their order.
abbrev pub choices_of : List Response → List Choice
choices_of [] = []
choices_of (rsp ∷ rsps) = rsp.choices ++ choices_of rsps

abbrev pub deltas : List Choice → Bytes
deltas [] = []
deltas (ch ∷ chs) = delta_of ch ++ deltas chs

-- The messages in front of the first choice with a delta.
abbrev pub messages_before : List Choice → Bytes
messages_before [] = []
messages_before (ch ∷ chs) =
    let later = ch.message.content ++ messages_before chs in if delta_of ch == [] then later else []

-- What the choices add to the content.
abbrev rest_of : Bool → List Choice → Bytes
rest_of saw chs = (if saw then [] else messages_before chs) ++ deltas chs

append_unless : (t m : Bytes) → (if not (m == []) then t ++ m else t) ≡ t ++ m
unfolding bytes_beq
append_unless t [] = sym (append-nil t)
append_unless t (b ∷ m) = refl

empty_delta : (ch : Choice) → (delta_of ch == []) ≡ true → delta_of ch ≡ []
empty_delta ch e = (bytes_beq_iff (delta_of ch) []).0 e

add_choice-content :
    (ch : Choice) (chs : List Choice) (a : Aggregator)
    → (add_choice ch a).content ++ rest_of (add_choice ch a).saw_delta chs
      ≡ a.content ++ rest_of a.saw_delta (ch ∷ chs)
unfolding add_choice
add_choice-content ch chs a = elim (Bool-cases (delta_of ch == [])) [
  | inr e ↦ elim (Bool-cases a.saw_delta) [
    | inl s ↦ rw (e, s) (append_assoc a.content (delta_of ch) (deltas chs))
    | inr s ↦ rw (e, s) (append_assoc a.content (delta_of ch) (deltas chs))
  ]
  | inl e ↦ elim (Bool-cases a.saw_delta) [
    | inl s ↦ rw (e, s, empty_delta ch e) refl
    | inr s ↦
        rw (e, s, empty_delta ch e, append_unless a.content ch.message.content)
          (append_assoc a.content ch.message.content (messages_before chs ++ deltas chs)
            ∙ ap (λ t. a.content ++ t)
                (sym (append_assoc ch.message.content (messages_before chs) (deltas chs))))
  ]
]

add_choices-rest :
    (chs more : List Choice) (a : Aggregator)
    → (add_choices chs a).content ++ rest_of (add_choices chs a).saw_delta more
      ≡ a.content ++ rest_of a.saw_delta (chs ++ more)
unfolding add_choices
add_choices-rest [] more a = refl
add_choices-rest (ch ∷ chs) more a =
    add_choices-rest chs more (add_choice ch a) ∙ add_choice-content ch (chs ++ more) a

nothing_more : (s : Bytes) (saw : Bool) → s ≡ s ++ rest_of saw []
nothing_more s true = sym (append-nil s)
nothing_more s false = sym (append-nil s)

add_responses-rest :
    (rsps : List Response) (a : Aggregator)
    → (add_responses rsps a).content ≡ a.content ++ rest_of a.saw_delta (choices_of rsps)
unfolding add_responses add_response
add_responses-rest [] a = nothing_more a.content a.saw_delta
add_responses-rest (rsp ∷ rsps) a =
    add_responses-rest rsps (add_response rsp a)
    ∙ add_choices-rest rsp.choices (choices_of rsps) (record a {
      model_name = if a.model_name == [] then rsp.model else a.model_name;
      usage = or_usage rsp.usage a.usage;
    })

-- The content that is stored for a stream is the text of its deltas, in their order, behind the
-- messages of the choices in front of the first delta: the last frame of a stream, which repeats what
-- was delivered, adds nothing.
pub aggregate-content :
    (rsps : List Response)
    → (add_responses rsps no_response).content
      ≡ messages_before (choices_of rsps) ++ deltas (choices_of rsps)
aggregate-content rsps = add_responses-rest rsps no_response

module _ (coder : Coder) (c : Canonicalizer) (depth : ℕ) (array_of : List Json → Json)
    (encode : FinalResponse → Option Bytes) (decode : Bytes → Option Response)
    (live live' : Request → Option (List Response)) (id : Bytes) (now : ℕ) where
  served-offline :
      (h : Bytes) (req : Request) (o : Option Response)
      → served coder c depth array_of encode decode live id now ReplayMode.strict h req o
        ≡ served coder c depth array_of encode decode live' id now ReplayMode.strict h req o
  served-offline h req none = refl
  served-offline h req (some rsp) = refl

  serve-offline :
      (h : Bytes) (req : Request) (f : Found)
      → serve coder c depth array_of encode decode live id now ReplayMode.strict h req f
        ≡ serve coder c depth array_of encode decode live' id now ReplayMode.strict h req f
  serve-offline h req Found.unreadable = refl
  serve-offline h req Found.missing = refl
  serve-offline h req (Found.found out) = served-offline h req (decode out)

  -- In the mode strict a call of the model is answered without the live model: two live models that
  -- differ in any way make no difference to the reply, nor to the journal.
  pub generate_content-offline :
      (req : Request) (j : Journal)
      → generate_content coder c depth array_of encode decode live id now ReplayMode.strict req j
        ≡ generate_content coder c depth array_of encode decode live' id now ReplayMode.strict req j
  unfolding generate_content with_input with_hash by_mode replay_call
  generate_content-offline req j =
      elim (Option-cases (canonicalize_model_request coder c depth array_of encode decode req)) [
        | inl e ↦ rw e refl
        | inr (input, e) ↦
            elim (Option-cases (hash coder c depth kind_model (bytes "model") input)) [
              | inl f ↦ rw (e, f) refl
              | inr (h, f) ↦
                  rw (e, f) (ap (λ r. (r, j)) (serve-offline h req (lookup kind_model h j)))
            ]
      ]
