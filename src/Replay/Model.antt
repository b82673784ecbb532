-- ===== src/Replay/Model.antt =====
-- internal/runtime/trpc/replay.go: the model that records or replays its calls. The live model is a
-- parameter: it fails, or answers with the responses of a stream. `id` and `now` are the clock's.
pub mod Aggregate
use harnesslab.Trpc.Event.{ToolCall, Message, Choice, Usage}
use harnesslab.Replay.Canonical.{Json, Fields, Canonicalizer, Coder, normalize, hash}
use harnesslab.Replay.Store.{Entry, Journal, Found, kind_model, lookup, put}
use harnesslab.Replay.Tools.{ReplayMode}
use harnesslab.Shared.Text.{bytes_beq}
use harnesslab.Shared.Lexical.{bytes_ltb}
use harnesslab.Shared.Sorting.{sort_slice}
use harnesslab.Shared.{
  ℕ, Bool, true, false, not, ◌&&◌, Option, none, some, List, [], ◌∷◌, ◌++◌, Bytes, bytes, bytes_eq,
  nat_eq, ◌==◌, ltb, length, map, if◌then◌else◌,
}

-- `model.Response`, as far as it is read.
pub record Response : Type 0 where
  pub model : Bytes
  pub choices : List Choice
  pub usage : Option Usage

-- `responseAggregator`
pub record Aggregator : Type 0 where
  pub content : Bytes
  pub saw_delta : Bool
  pub usage : Option Usage
  pub tool_calls : List ToolCall
  pub model_name : Bytes

abbrev pub no_response : Aggregator
no_response = record {
  content = [];
  saw_delta = false;
  usage = none;
  tool_calls = [];
  model_name = [];
}

abbrev pub delta_of : Choice → Bytes
delta_of ch = ch.delta.content

-- The body of the loop over the choices.
unfoldable pub add_choice : Choice → Aggregator → Aggregator
add_choice ch a =
    let delta = ch.delta.content in
    let saw = if not (delta == []) then true else a.saw_delta in
    let text = if not (delta == []) then a.content ++ delta else a.content in
    record a {
      saw_delta = saw;
      content =
          if not saw && not (ch.message.content == []) then text ++ ch.message.content else text;
      tool_calls =
          if ltb 0 (length ch.message.tool_calls) then ch.message.tool_calls else a.tool_calls;
    }

unfoldable pub add_choices : List Choice → Aggregator → Aggregator
unfolding add_choice
add_choices [] a = a
add_choices (ch ∷ chs) a = add_choices chs (add_choice ch a)

abbrev or_usage : Option Usage → Option Usage → Option Usage
or_usage none old = old
or_usage (some u) old = some u

unfoldable pub add_response : Response → Aggregator → Aggregator
unfolding add_choices
add_response rsp a = add_choices rsp.choices (record a {
  model_name = if a.model_name == [] then rsp.model else a.model_name;
  usage = or_usage rsp.usage a.usage;
})

unfoldable pub add_responses : List Response → Aggregator → Aggregator
unfolding add_response
add_responses [] a = a
add_responses (rsp ∷ rsps) a = add_responses rsps (add_response rsp a)

-- The response that is stored for a call, without its fixed fields.
pub record FinalResponse : Type 0 where
  pub id : Bytes
  pub model : Bytes
  pub content : Bytes
  pub tool_calls : List ToolCall
  pub usage : Option Usage
  pub timestamp : ℕ

unfoldable pub final_response : Bytes → ℕ → Aggregator → Option FinalResponse
final_response id now a =
    if a.model_name == [] && a.content == [] && length a.tool_calls == 0
    then none
    else some (record {
      id = id;
      model = a.model_name;
      content = a.content;
      tool_calls = a.tool_calls;
      usage = a.usage;
      timestamp = now;
    })

-- A request: the encodings of its parts, and its tools by name, of which some have no declaration.
pub record Request : Type 0 where
  pub messages : Json
  pub config : Json
  pub structured_output : Json
  pub tools : List (Bytes × Option Json)

abbrev tool_at : Bytes → List (Bytes × Option Json) → Option Json
tool_at name [] = none
tool_at name ((n, d) ∷ rest) = if n == name then d else tool_at name rest

abbrev decl_cons : Option Json → List Json → List Json
decl_cons none ds = ds
decl_cons (some d) ds = d ∷ ds

abbrev declarations_for : List (Bytes × Option Json) → List Bytes → List Json
declarations_for tools [] = []
declarations_for tools (name ∷ names) =
    decl_cons (tool_at name tools) (declarations_for tools names)

unfoldable pub tool_declarations : List (Bytes × Option Json) → List Json
tool_declarations tools = declarations_for tools (sort_slice bytes_ltb (map (λ t. t.0) tools))

-- What a call of the model gives: the error of the strict mode, that of the live model or of the
-- request, or a stream.
pub data Reply : Type 0 where
  strict_miss : Bytes → Reply
  failed : Reply
  stream : List Response → Reply

module _ (coder : Coder) (c : Canonicalizer) (depth : ℕ) (array_of : List Json → Json)
    (encode : FinalResponse → Option Bytes) (decode : Bytes → Option Response) where
  -- The keys of a printed map are sorted.
  abbrev payload : Request → Json
  unfolding tool_declarations
  payload req = Json.object (
      Fields.field (bytes "config") req.config (
        Fields.field (bytes "messages") req.messages (
          Fields.field (bytes "structured_output") req.structured_output (
            Fields.field (bytes "tools") (array_of (tool_declarations req.tools))
              Fields.no_fields))))

  abbrev normalized_request : Option Bytes → Option Bytes
  unfolding normalize
  normalized_request none = none
  normalized_request (some text) = normalize coder c depth text

  unfoldable pub canonicalize_model_request : Request → Option Bytes
  unfolding payload normalized_request
  canonicalize_model_request req = normalized_request (coder.marshal (payload req))

  abbrev put_response : ℕ → Bytes → Bytes → Option Bytes → Journal → Journal
  unfolding put
  put_response now h input none j = j
  put_response now h input (some out) j =
      put
        (record {
          kind = kind_model;
          input_hash = h;
          input = input;
          output = out;
          created_at = now;
        })
        j

  abbrev encoded : Option FinalResponse → Option Bytes
  encoded none = none
  encoded (some f) = encode f

  module _ (live : Request → Option (List Response)) (id : Bytes) (now : ℕ) where
    abbrev recorded_stream : Bytes → Bytes → Option (List Response) → Journal → Reply × Journal
    unfolding add_responses final_response put_response
    recorded_stream h input none j = (Reply.failed, j)
    recorded_stream h input (some rsps) j = (
      Reply.stream rsps,
      put_response now h input (encoded (final_response id now (add_responses rsps no_response))) j,
    )

    -- `recordCall`, when its stream has been read to the end.
    unfoldable pub record_call : Request → Bytes → Bytes → Journal → Reply × Journal
    unfolding recorded_stream
    record_call req h input j = recorded_stream h input (live req) j

    abbrev live_reply : Option (List Response) → Reply
    live_reply none = Reply.failed
    live_reply (some rsps) = Reply.stream rsps

    abbrev unrecorded : ReplayMode → Bytes → Request → Reply
    unrecorded ReplayMode.strict h req = Reply.strict_miss h
    unrecorded _ h req = live_reply (live req)

    abbrev pub served : ReplayMode → Bytes → Request → Option Response → Reply
    served mode h req none = unrecorded mode h req
    served mode h req (some rsp) = Reply.stream (rsp ∷ [])

    abbrev pub serve : ReplayMode → Bytes → Request → Found → Reply
    serve mode h req (Found.found out) = served mode h req (decode out)
    serve mode h req _ = unrecorded mode h req

    unfoldable pub replay_call : ReplayMode → Request → Bytes → Journal → Reply
    unfolding lookup
    replay_call mode req h j = serve mode h req (lookup kind_model h j)

    abbrev by_mode : ReplayMode → Request → Bytes → Bytes → Journal → Reply × Journal
    unfolding record_call replay_call
    by_mode ReplayMode.recording req h input j = record_call req h input j
    by_mode mode req h input j = (replay_call mode req h j, j)

    abbrev with_hash : ReplayMode → Request → Bytes → Option Bytes → Journal → Reply × Journal
    unfolding by_mode
    with_hash mode req input none j = (Reply.failed, j)
    with_hash mode req input (some h) j = by_mode mode req h input j

    abbrev with_input : ReplayMode → Request → Option Bytes → Journal → Reply × Journal
    unfolding with_hash hash
    with_input mode req none j = (Reply.failed, j)
    with_input mode req (some input) j =
        with_hash mode req input (hash coder c depth kind_model (bytes "model") input) j

    -- `GenerateContent` of the replaying model.
    unfoldable pub generate_content : ReplayMode → Request → Journal → Reply × Journal
    unfolding canonicalize_model_request with_input
    generate_content mode req j = with_input mode req (canonicalize_model_request req) j
