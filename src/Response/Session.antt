-- ===== src/Response/Session.antt =====
-- internal/response/store.go: what the store tells of a session, and its deletion.
pub mod Delete
use microagent.Prelude.{
  ℕ, String, Bool, true, false, not, Option, none, some, List, [], ◌∷◌, ◌++◌, if◌then◌else◌, take,
}
use microagent.Prelude.Text.{str_eq}
use microagent.Broker.Llm.{ToolCall}
use microagent.Response.{
  Response, Store, Failure, redis_error, response_not_found, Result, ok, failed, Codec, get,
  response_key, session_responses_key, session_hash_key, text_or_empty, session_ids, last, lookup,
  insert, remove, remove_all,
}
use microagent.Response.Content.{InputItem, OutputItem, flatten_content, parts}

-- `messaging.ChatMsg`
pub record ChatMsg : Type 0 where
  pub role : String
  pub content : String
  pub tool_calls : List ToolCall
  pub tool_call_id : String

abbrev pub tool_message : String → String → ChatMsg
tool_message output id = record {
  role = "tool";
  content = output;
  tool_calls = [];
  tool_call_id = id;
}

abbrev pub text_message : String → String → List ChatMsg
text_message role text =
    if str_eq text ""
    then []
    else record { role = role; content = text; tool_calls = []; tool_call_id = "" } ∷ []

unfoldable pub input_messages : List InputItem → List ChatMsg
input_messages [] = []
input_messages (it ∷ items) =
    let rest = input_messages items in
    if str_eq it.type "function_call_output"
    then tool_message it.output it.call_id ∷ rest
    else text_message (if str_eq it.role "" then "user" else it.role) (flatten_content it.content)
      ++ rest

abbrev pub call_message : OutputItem → ChatMsg
call_message out = record {
  role = "assistant";
  content = "";
  tool_calls =
      record { id = out.call_id; type = "function"; name = out.name; arguments = out.args } ∷ [];
  tool_call_id = "";
}

unfoldable pub output_messages : List OutputItem → List ChatMsg
output_messages [] = []
output_messages (out ∷ outs) =
    let rest = output_messages outs in
    if str_eq out.type "function_call"
    then call_message out ∷ rest
    else if str_eq out.type "function_call_output"
    then tool_message out.output out.call_id ∷ rest
    else if str_eq out.type "message"
    then (if str_eq out.role "assistant"
        then text_message "assistant" (flatten_content (parts out.content))
        else [])
      ++ rest
    else rest

unfoldable pub messages_of : List Response → List ChatMsg
messages_of [] = []
messages_of (r ∷ rs) = input_messages r.input ++ (output_messages r.output ++ messages_of rs)

abbrev pub result_messages : Result (List Response) → Result (List ChatMsg)
result_messages (failed e) = failed e
result_messages (ok rs) = ok (messages_of rs)

-- A round of the loop of `GetSessionHistory`, with what the rounds after it come to: a missing
-- response is passed over.
abbrev pub read_step : Result (Option Response) → Result (List Response) → Result (List Response)
read_step (failed e) rest = failed e
read_step (ok none) rest = rest
read_step (ok (some r)) (failed e) = failed e
read_step (ok (some r)) (ok rs) = ok (r ∷ rs)

module _ (up : String → Bool) (json : Codec) where
  unfoldable pub read_all : Store → List String → Result (List Response)
  read_all s [] = ok []
  read_all s (id ∷ ids) = read_step (get up json id s) (read_all s ids)

  unfoldable pub get_session_history : String → Store → Result (List Response)
  get_session_history sid s =
      if up (session_responses_key sid) then read_all s (session_ids sid s) else failed redis_error

  unfoldable pub get_session_messages : String → Store → Result (List ChatMsg)
  get_session_messages sid s = result_messages (get_session_history sid s)

-- What the calls that read one field answer when the field is missing.
module _ (up : String → Bool) where
  abbrev pub read_field : Result String → String → String → Store → Result String
  read_field missing k id s =
      if not (up (response_key id)) then failed redis_error else elim (lookup id s.responses) [
        | none ↦ missing
        | some fields ↦ elim (lookup k fields) [ none ↦ missing | some v ↦ ok v ]
      ]

  unfoldable pub inherit_session_id : String → Store → Result String
  inherit_session_id id s = read_field (failed (response_not_found id)) "session_id" id s

  unfoldable pub inherit_speaker_id : String → Store → Result String
  inherit_speaker_id id s = read_field (ok "") "speaker_id" id s

  unfoldable pub get_last_response_id : String → Store → Result String
  get_last_response_id sid s =
      if up (session_responses_key sid)
      then ok (text_or_empty (last (session_ids sid s)))
      else failed redis_error

  unfoldable pub get_session_speaker_id : String → Store → String
  get_session_speaker_id sid s = elim (get_last_response_id sid s) [
    | failed e ↦ ""
    | ok id ↦
        if str_eq id ""
        then ""
        else elim (read_field (ok "") "speaker_id" id s) [ failed e ↦ "" | ok v ↦ v ]
  ]

  unfoldable pub session_exists : String → Store → Result Bool
  session_exists sid s =
      if up (session_responses_key sid)
      then ok (elim (lookup sid s.sessions) [ none ↦ false | some _ ↦ true ])
      else failed redis_error

  unfoldable pub store_session_prefix_hash : String → String → Store → Option Failure × Store
  store_session_prefix_hash h sid s =
      if up (session_hash_key h)
      then (none, record s { session_hashes = insert h sid s.session_hashes })
      else (some redis_error, s)

  -- `none` within `ok` when the hash is not indexed (or its entry has expired).
  unfoldable pub lookup_session_by_prefix_hash : String → Store → Result (Option String)
  lookup_session_by_prefix_hash h s =
      if up (session_hash_key h) then ok (lookup h s.session_hashes) else failed redis_error

  -- `DeleteSession`, whose pipeline deletes the responses and then the list; `whole` says that all
  -- of it is carried out, and `n` how many commands are if not.
  unfoldable pub delete_session : Bool → ℕ → String → Store → Option Failure × Store
  delete_session whole n sid s =
      if not (up (session_responses_key sid))
      then (some redis_error, s)
      else let ids = session_ids sid s in
        if whole
        then (
          none,
          record s { responses = remove_all ids s.responses; sessions = remove sid s.sessions },
        )
        else (some redis_error, record s { responses = remove_all (take n ids) s.responses })
