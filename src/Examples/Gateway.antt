-- ===== src/Examples/Gateway.antt =====
-- internal/gateway on a small store.
use microagent.Prelude.{
  ℕ, String, true, false, ◌≡◌, refl, none, some, Option, List, [], ◌∷◌, ◌++◌, map, arith,
}
use microagent.Broker.Llm.{ToolCall}
use microagent.Response.{Store, empty_store, save, save_pipeline, is_seen, lookup, session_ids}
use microagent.Response.Content.{flatten_content, InputItem, output_item_to_input_item}
use microagent.Response.Session.{get_session_messages}
use microagent.Gateway.{
  Env, World, Turn, text_input, decided, decide_session, client_facing_output, text_to_output_items,
  ResponsesResponse, shown, complete_turn, current_turn_input,
}
use microagent.Gateway.Reply.{
  ChatResponse, reply, output_items, handle_responses_non_streaming, Answer,
}
use microagent.Gateway.Stream.{
  item_id, StreamEvent, tool_called, tool_returned, token, finished, created, in_progress, streamed,
  handle_responses_streaming,
}
use microagent.Gateway.Stream.Frames.{
  heard, joined_tokens, text_frames, ending_frames, any_text, final_world,
  handle_responses_streaming_lem,
}
use microagent.Gateway.Stored.{save_turn}
use microagent.Gateway.Stitch.{decide_session_lem, turn_hash}
use microagent.Gateway.Agree.{Call, payload, trace_of, streaming_agrees}
use microagent.Gateway.Create.{ResponsesRequest, Agent, handle_create_response, handle_get_response}
use microagent.Gateway.Errors.{Handled, handle_create_response-Handled}
use microagent.Gateway.Fetch.{handle_get_response-complete_turn}
use microagent.Gateway.Chat.{
  OpenAiMsg, messages_to_input_items, Chat, handle_chat_completions_non_streaming,
}
use microagent.Gateway.Chat.Repeats.{
  spoken, all_spoken, grown, get_session_messages-handle_chat_completions_non_streaming,
}
use microagent.Gateway.Sessions.{Retro, handle_retro_trigger}
use microagent.Gateway.Sessions.Gone.{TakenUp, handle_retro_trigger-TakenUp}
use microagent.Examples.Response.{up, question, answer, json, documents, to_lower}

abbrev env : Env
env = record {
  up = up;
  saved_commands = 2;
  json = json;
  to_lower = to_lower;
  digest = λ s. s;
  redis_text = "redis";
  json_text = "json";
  speaker_header = "ann";
  primary_user_id = "";
  new_session_id = "new";
  response_id = "r1";
  correlation_id = "0123456789";
  created_at = "t";
  unix_time = 1;
  message_made = true;
  published = true;
  announced = true;
  unlocked = true;
  flusher = true;
}

abbrev nothing : World
nothing = record { store = empty_store; requests = []; turns_completed = [] }

abbrev turn : Turn
turn = record {
  session_id = "s";
  model = "m";
  previous_response_id = "";
  input_items = question ∷ [];
  store = true;
  speaker_id = "ann";
}

abbrev call : ToolCall
call = record { id = "c1"; type = "function"; name = "bash"; arguments = "{}" }

abbrev calls : List Call
calls = (call, "done") ∷ []

abbrev said_hi : ChatResponse
said_hi = payload calls "hi"

abbrev replay : List InputItem
replay = question ∷ map output_item_to_input_item (client_facing_output (output_items said_hi))

saves : (save_turn env turn (output_items said_hi) nothing).0 ≡ none
unfolding save save_pipeline
saves = refl

decide_session_lem_example :
    let after = (handle_responses_non_streaming env turn (reply said_hi) nothing).1 in
    decide_session env after.store "" true (replay ++ (question ∷ []))
    ≡ decided (record {
      session_id = "s";
      effective_prev_resp_id = "r1";
      stitch_prefix_hash = turn_hash env turn (output_items said_hi);
      stitched = true;
    })
decide_session_lem_example =
    decide_session_lem env env turn said_hi nothing replay question refl saves refl refl refl refl
      refl (omega arith) refl

abbrev events : List StreamEvent
events =
    tool_called call
    ∷ tool_returned "c1" "done"
    ∷ token "h" false
    ∷ token "i" false
    ∷ token "" true
    ∷ []

handle_responses_streaming_lem_example :
    let h = heard events in
    let start = shown env turn [] "in_progress" in
    let text = joined_tokens h.tokens in
    let outs = h.trace ++ text_to_output_items text in
    handle_responses_streaming env turn events nothing ≡ (
      streamed
          (created start ∷ in_progress start ∷ text_frames (item_id env) false h.tokens
            ++ ending_frames env turn text (any_text false h.tokens) outs h.ending)
          h.ending,
      final_world env turn outs h.ending nothing,
    )
handle_responses_streaming_lem_example = handle_responses_streaming_lem env turn events nothing refl

one_call : (heard events).trace ≡ trace_of calls
unfolding heard
one_call = refl

is_finished : (heard events).ending ≡ finished
unfolding heard
is_finished = refl

streaming_agrees_example :
    (handle_responses_streaming env turn events nothing).1
    ≡ (handle_responses_non_streaming env turn
        (reply (payload calls (joined_tokens (heard events).tokens)))
        nothing).1
streaming_agrees_example =
    streaming_agrees env turn events calls nothing refl (tt, tt) one_call is_finished

abbrev request : ResponsesRequest
request = record {
  input = text_input "hello";
  model = "m";
  previous_response_id = "";
  stream = false;
  store = none;
  speaker_id = "";
}

abbrev agent : Agent
agent = record { reply = reply said_hi; events = [] }

handle_create_response-Handled_example :
    Handled env agent
      (some request)
      nothing
      (handle_create_response env agent (some request) nothing)
handle_create_response-Handled_example =
    handle_create_response-Handled env agent (some request) nothing

only_turn : current_turn_input (question ∷ []) ≡ question ∷ []
unfolding current_turn_input
only_turn = refl

abbrev no_time : String → Option ℕ
no_time ts = none

handle_get_response-complete_turn_example :
    (b : ResponsesResponse) × (handle_get_response no_time env "r1"
        (complete_turn env turn (answer ∷ []) nothing).store
      ≡ Answer.body b)
    × (b.id ≡ "r1")
    × (b.output ≡ answer ∷ [])
    × (b.session_id ≡ turn.session_id)
    × (b.previous_response_id ≡ turn.previous_response_id)
    × (b.model ≡ turn.model)
    × (b.status ≡ "completed")
handle_get_response-complete_turn_example =
    handle_get_response-complete_turn no_time env turn (answer ∷ []) nothing 0 "[question]"
      "[answer]" refl refl refl (documents _ only_turn refl)

abbrev chat : Chat
chat = record { session_id = "s"; model = "m"; input_items = question ∷ []; speaker_id = "ann" }

abbrev plain_hi : ChatResponse
plain_hi = record { content = "hi"; tool_calls = []; tool_results = [] }

the_answer : text_to_output_items "hi" ≡ answer ∷ []
unfolding text_to_output_items
the_answer = refl

not_listed : is_seen "r1" (session_ids "s" empty_store) ≡ false
unfolding is_seen lookup
not_listed = refl

abbrev asked_once : List OpenAiMsg
asked_once = record { role = "user"; content = flatten_content question.content } ∷ []

once : question ∷ [] ≡ messages_to_input_items asked_once
unfolding messages_to_input_items flatten_content
once = refl

get_session_messages-handle_chat_completions_non_streaming_example :
    get_session_messages up json "s"
      (handle_chat_completions_non_streaming env chat (reply plain_hi) nothing).1.store
    ≡ grown
        (get_session_messages up json "s" empty_store)
        (all_spoken asked_once ++ spoken "assistant" "hi")
get_session_messages-handle_chat_completions_non_streaming_example =
    get_session_messages-handle_chat_completions_non_streaming env chat asked_once plain_hi nothing
      0 "[question]" "[answer]" once refl refl refl (documents _ refl the_answer) not_listed

abbrev no_jobs : Retro
no_jobs = record { locks = []; triggers = [] }

abbrev one_session : Store
one_session = record { responses = []; sessions = ("s", "r1" ∷ []) ∷ []; session_hashes = [] }

handle_retro_trigger-TakenUp_example :
    TakenUp env "s" "curation"
      (handle_retro_trigger env "s" (some "curation") one_session no_jobs)
      no_jobs
handle_retro_trigger-TakenUp_example =
    handle_retro_trigger-TakenUp env "s" "curation" one_session no_jobs
