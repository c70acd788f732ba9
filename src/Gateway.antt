-- ===== src/Gateway.antt =====
-- internal/gateway/responses.go and speaker.go: what the gateway's handlers share. `Env` is what a
-- handler finds around it: the headers, the configuration, the ids and times it makes, and which of
-- its calls succeed. `World` is what the handlers change: the response store, the stream of chat
-- requests and the announced turns. Log lines are left out.
pub mod Messages
pub mod Reply
pub mod Stream
pub mod Create
pub mod Stored
pub mod Stitch
pub mod Agree
pub mod Told
pub mod Errors
pub mod Fetch
pub mod Chat
pub mod Sessions
mod State
unfoldable pub use State.*
use Prim.Native.String.{◌++◌ as str_append}
use microagent.Prelude.{
  ℕ, ◌-◌, String, Bool, true, false, not, ◌||◌, ◌&&◌, ltb, Option, none, some, List, [], ◌∷◌, ◌++◌,
  map, if◌then◌else◌, length, take, drop,
}
use microagent.Prelude.Text.{str_eq}
use microagent.Response.{Response, Store, Failure, Result, ok, failed, Codec, save}
use microagent.Response.Content.{
  ContentPart, InputItem, OutputItem, plain, output_item_to_input_item, stitch_hash,
}
use microagent.Response.Session.{
  ChatMsg, inherit_session_id, inherit_speaker_id, get_last_response_id, store_session_prefix_hash,
  lookup_session_by_prefix_hash,
}

abbrev pub user_item : String → String → InputItem
user_item role text = record {
  type = "message";
  role = role;
  content = plain text;
  call_id = "";
  name = "";
  args = "";
  output = "";
}

unfoldable pub parse_input : Codec → RawInput → Parsed
parse_input json (text_input v) = items (user_item "user" v ∷ [])
parse_input json (list_input none) = unparsed "invalid input format"
parse_input json (list_input (some doc)) = elim (json.decode_input doc) [
  | none ↦ unparsed "invalid input items format"
  | some its ↦ items its
]
parse_input json other_input = unparsed "input must be a string or array"

abbrev pub mint : Env → String → SessionDecision
mint env hash = record {
  session_id = env.new_session_id;
  effective_prev_resp_id = "";
  stitch_prefix_hash = hash;
  stitched = false;
}

-- The id beside an error, which the caller drops, is empty.
abbrev pub id_or_empty : Result String → String
id_or_empty (ok id) = id
id_or_empty (failed e) = ""

abbrev pub inherit : String → Result String → Decided
inherit prev (failed e) =
    refused (invalid_request (str_append "previous_response_id not found: " prev))
inherit prev (ok sid) = decided (record {
  session_id = sid;
  effective_prev_resp_id = prev;
  stitch_prefix_hash = "";
  stitched = false;
})

abbrev pub stitch : Env → Store → String → Result (Option String) → Decided
stitch env s hash (failed e) = decided (mint env hash)
stitch env s hash (ok none) = decided (mint env hash)
stitch env s hash (ok (some sid)) = decided (record {
  session_id = sid;
  effective_prev_resp_id = id_or_empty (get_last_response_id env.up sid s);
  stitch_prefix_hash = hash;
  stitched = true;
})

-- The hash of a conversation.
abbrev pub hash_of : Env → List InputItem → String
hash_of env its = stitch_hash env.to_lower env.digest its

unfoldable pub decide_session : Env → Store → String → Bool → List InputItem → Decided
decide_session env s prev should_store its =
    if not (str_eq prev "")
    then inherit prev (inherit_session_id env.up prev s)
    else if should_store && ltb 1 (length its)
    then (let hash = hash_of env (take (length its - 1) its) in
        stitch env s hash (lookup_session_by_prefix_hash env.up hash s))
    else decided (mint env "")

abbrev pub primary_speaker : Env → String
primary_speaker env = if str_eq env.primary_user_id "" then "unknown" else env.primary_user_id

-- `responses` says whether the caller passes its response store.
unfoldable pub resolve_speaker_id : Env → Store → String → String → Bool → String
resolve_speaker_id env s body prev responses =
    if not (str_eq body "")
    then body
    else if not (str_eq env.speaker_header "")
    then env.speaker_header
    else if not (str_eq prev "") && responses
    then elim (inherit_speaker_id env.up prev s) [
      | failed e ↦ primary_speaker env
      | ok v ↦ if str_eq v "" then primary_speaker env else v
    ]
    else primary_speaker env

unfoldable pub current_turn_input : List InputItem → List InputItem
current_turn_input [] = []
current_turn_input (it ∷ its) = drop (length (it ∷ its) - 1) (it ∷ its)

unfoldable pub write_stitch_index : Env → String → List InputItem → List OutputItem → Store → Store
write_stitch_index env sid its outs s =
    (store_session_prefix_hash env.up (hash_of env (its ++ map output_item_to_input_item outs)) sid
      s).1

unfoldable pub publish_turn_completed : Env → String → World → World
publish_turn_completed env sid w =
    if env.announced then record w { turns_completed = w.turns_completed ++ (sid ∷ []) } else w

abbrev pub is_tool_item : OutputItem → Bool
is_tool_item it = str_eq it.type "function_call" || str_eq it.type "function_call_output"

unfoldable pub client_facing_output : List OutputItem → List OutputItem
client_facing_output [] = []
client_facing_output (it ∷ its) =
    let rest = client_facing_output its in if is_tool_item it then rest else it ∷ rest

unfoldable pub text_to_output_items : String → List OutputItem
text_to_output_items content =
    record {
      type = "message";
      role = "assistant";
      content = record { type = "output_text"; text = content } ∷ [];
      call_id = "";
      name = "";
      args = "";
      output = "";
    }
    ∷ []

abbrev pub response_of : Env → Turn → List InputItem → List OutputItem → Response
response_of env t its outs = record {
  id = env.response_id;
  input = its;
  output = outs;
  previous_response_id = t.previous_response_id;
  session_id = t.session_id;
  speaker_id = t.speaker_id;
  model = t.model;
  created_at = env.created_at;
  status = "completed";
}

-- The hash of the turn is indexed when `Save` gave no error.
abbrev pub index_saved : Env → Turn → List OutputItem → Option Failure × Store → Store
index_saved env t outs (none, s) = write_stitch_index env t.session_id t.input_items outs s
index_saved env t outs (some e, s) = s

-- What both handlers of a turn do at its end.
unfoldable pub complete_turn : Env → Turn → List OutputItem → World → World
complete_turn env t outs w =
    let r = response_of env t (current_turn_input t.input_items) outs in
    let stored = index_saved env t outs (save env.json env.saved_commands r w.store) in
    publish_turn_completed env t.session_id
      (record w { store = if t.store then stored else w.store })

abbrev pub shown : Env → Turn → List OutputItem → String → ResponsesResponse
shown env t outs status = record {
  id = env.response_id;
  object = "response";
  created_at = env.unix_time;
  model = t.model;
  session_id = t.session_id;
  previous_response_id = t.previous_response_id;
  output = outs;
  status = status;
}
