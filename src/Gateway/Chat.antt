-- ===== src/Gateway/Chat.antt =====
-- `handleChatCompletions` and its two continuations of internal/gateway/server.go. The events are
-- those of Stream; nothing listens to the channel of tool calls here. The time of a chunk and the
-- fields that are the same in every chunk are left out.
pub mod Repeats
use Prim.Native.String.{◌++◌ as str_append}
use microagent.Prelude.{
  String, Bool, true, false, not, Option, none, some, List, [], ◌∷◌, ◌++◌, map, if◌then◌else◌,
}
use microagent.Prelude.Text.{str_eq}
use microagent.Response.{Response, save}
use microagent.Response.Content.{InputItem}
use microagent.Response.Session.{ChatMsg}
use microagent.Gateway.{
  Env, World, ChatRequest, HandlerErr, invalid_request, internal_error, user_item,
  resolve_speaker_id, text_to_output_items, publish_turn_completed,
}
use microagent.Gateway.Messages.{said}
use microagent.Gateway.Reply.{Reply, timed_out, undecodable, reply}
use microagent.Gateway.Stream.{
  StreamEvent, client_gone, passed_over, tool_called, tool_returned, token, StreamEnd, finished,
  disconnected, waiting,
}
use microagent.Gateway.Create.{Agent}

-- `openAIMsg`
pub record OpenAiMsg : Type 0 where
  pub role : String
  pub content : String

-- `openAIRequest`
pub record OpenAiRequest : Type 0 where
  pub model : String
  pub messages : List OpenAiMsg
  pub stream : Bool
  pub session_id : String
  pub speaker_id : String

-- What is written of a stream: a chunk with a delta, the chunk that stops, and the end mark.
pub data ChatFrame : Type 0 where
  chunk : String → ChatFrame
  stop_chunk done_mark : ChatFrame

pub data ChatAnswer : Type 0 where
  chat_error : HandlerErr → ChatAnswer
  completion : (session_id content : String) → ChatAnswer
  chat_stream : List ChatFrame → StreamEnd → ChatAnswer

-- The arguments that both continuations share.
pub record Chat : Type 0 where
  pub session_id : String
  pub model : String
  pub input_items : List InputItem
  pub speaker_id : String

unfoldable pub messages_to_input_items : List OpenAiMsg → List InputItem
messages_to_input_items msgs = map (λ m. user_item m.role m.content) msgs

abbrev pub chat_response : Env → Chat → String → Response
chat_response env c text = record {
  id = env.response_id;
  input = c.input_items;
  output = text_to_output_items text;
  previous_response_id = "";
  session_id = c.session_id;
  speaker_id = c.speaker_id;
  model = c.model;
  created_at = env.created_at;
  status = "completed";
}

-- Both continuations store the response, whether that succeeds or not, and announce the turn.
unfoldable pub complete_chat : Env → Chat → String → World → World
complete_chat env c text w =
    publish_turn_completed env c.session_id
      (record w { store = (save env.json env.saved_commands (chat_response env c text) w.store).1 })

unfoldable pub handle_chat_completions_non_streaming :
    Env → Chat → Reply → World → ChatAnswer × World
handle_chat_completions_non_streaming env c timed_out w = (
  chat_error
      (record { status = 504; code = "timeout"; msg = "Request timed out waiting for response" }),
  w,
)
handle_chat_completions_non_streaming env c undecodable w =
    (chat_error (internal_error "Failed to decode response"), w)
handle_chat_completions_non_streaming env c (reply p) w =
    (completion c.session_id p.content, complete_chat env c p.content w)

pub record ChatRun : Type 0 where
  pub frames : List ChatFrame
  pub ended : StreamEnd
  pub world : World

abbrev pub write_chunk : String → ChatRun → ChatRun
write_chunk text run = record run { frames = chunk text ∷ run.frames }

unfoldable pub chat_loop : Env → Chat → String → List StreamEvent → World → ChatRun
chat_loop env c full [] w = record { frames = []; ended = waiting; world = w }
chat_loop env c full (client_gone ∷ es) w = record { frames = []; ended = disconnected; world = w }
chat_loop env c full (passed_over ∷ es) w = chat_loop env c full es w
chat_loop env c full (tool_called call ∷ es) w = chat_loop env c full es w
chat_loop env c full (tool_returned id out ∷ es) w = chat_loop env c full es w
chat_loop env c full (token text true ∷ es) w = record {
  frames = stop_chunk ∷ done_mark ∷ [];
  ended = finished;
  world = complete_chat env c full w;
}
chat_loop env c full (token text false ∷ es) w =
    write_chunk text (chat_loop env c (str_append full text) es w)

unfoldable pub handle_chat_completions_streaming :
    Env → Chat → List StreamEvent → World → ChatAnswer × World
handle_chat_completions_streaming env c es w =
    if env.flusher
    then (let run = chat_loop env c "" es w in (chat_stream run.frames run.ended, run.world))
    else (chat_error (internal_error "Streaming not supported"), w)

abbrev pub chat_of : Env → OpenAiRequest → String → Chat
chat_of env req speaker = record {
  session_id = if str_eq req.session_id "" then env.new_session_id else req.session_id;
  model = req.model;
  input_items = messages_to_input_items req.messages;
  speaker_id = speaker;
}

abbrev pub chat_completion_request : Env → OpenAiRequest → Chat → ChatRequest
chat_completion_request env req c = record {
  session_id = c.session_id;
  messages = map (λ (m : OpenAiMsg). said m.role m.content) req.messages;
  model = req.model;
  stream = req.stream;
  speaker_id = c.speaker_id;
  correlation_id = env.correlation_id;
  reply_stream = str_append "stream:gateway:reply:" env.correlation_id;
}

unfoldable pub publish_completion : Env → Agent → OpenAiRequest → Chat → World → ChatAnswer × World
publish_completion env agent req c w =
    let w' = record w { requests = w.requests ++ (chat_completion_request env req c ∷ []) } in
    if not env.message_made
    then (chat_error (internal_error "Failed to create message"), w)
    else if not env.published
    then (chat_error (internal_error "Failed to publish request"), w)
    else if req.stream
    then handle_chat_completions_streaming env c agent.events w'
    else handle_chat_completions_non_streaming env c agent.reply w'

-- A body that does not decode is `none`.
unfoldable pub handle_chat_completions :
    Env → Agent → Option OpenAiRequest → World → ChatAnswer × World
handle_chat_completions env agent none w =
    (chat_error (invalid_request "Failed to parse request body"), w)
handle_chat_completions env agent (some req) w = elim req.messages [
  | [] ↦ (chat_error (invalid_request "messages array is required and must not be empty"), w)
  | m ∷ ms ↦
      publish_completion env agent req
        (chat_of env req (resolve_speaker_id env w.store req.speaker_id "" false)) w
]
