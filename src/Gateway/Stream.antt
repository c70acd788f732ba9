-- ===== src/Gateway/Stream.antt =====
-- `handleResponsesStreaming` of internal/gateway/responses.go. What the `select` loop takes is
-- given as a list of events, in the order in which it takes them; where the list ends, the handler
-- waits for more. JSON encoding is left out.
pub mod Frames
use Prim.Native.String.{◌++◌ as str_append, slice, len}
use microagent.Prelude.{
  String, Bool, true, false, Option, none, some, List, [], ◌∷◌, ◌++◌, if◌then◌else◌, ltb,
}
use microagent.Broker.Llm.{ToolCall}
use microagent.Response.Content.{OutputItem}
use microagent.Gateway.{
  Env, World, HandlerErr, internal_error, Turn, complete_turn, ResponsesResponse, shown,
  client_facing_output, text_to_output_items,
}
use microagent.Gateway.Reply.{function_call, function_call_output}

pub data StreamEvent : Type 0 where
  -- The request's context is done.
  client_gone : StreamEvent
  -- A message that is nil or cannot be decoded, or is of another type.
  passed_over : StreamEvent
  -- The two types of message on the channel of tool calls.
  tool_called : ToolCall → StreamEvent
  tool_returned : (call_id output : String) → StreamEvent
  -- A `TokenPayload`: its token and whether it is the last.
  token : String → Bool → StreamEvent

-- The server-sent events.
pub data Frame : Type 0 where
  created in_progress completed : ResponsesResponse → Frame
  item_added part_added : (item_id : String) → Frame
  text_delta text_done part_done item_done : (item_id text : String) → Frame

pub record StreamState : Type 0 where
  pub full_content : String
  pub agentic_items : List OutputItem
  pub text_part_declared : Bool

pub data StreamEnd : Type 0 where
  finished disconnected waiting : StreamEnd

pub record StreamRun : Type 0 where
  pub frames : List Frame
  pub ended : StreamEnd
  pub world : World

abbrev pub no_text : StreamState
no_text = record { full_content = ""; agentic_items = []; text_part_declared = false }

abbrev pub item_id : Env → String
item_id env = str_append "msg_" (
    slice env.correlation_id 0
      (if ltb 8 (len env.correlation_id) then 8 else len env.correlation_id))

abbrev pub written : List Frame → StreamRun → StreamRun
written frames run = record run { frames = frames ++ run.frames }

-- The frames of a part that is declared before the text, and of one that is done after it.
abbrev pub opening : String → Bool → List Frame
opening item true = []
opening item false = item_added item ∷ part_added item ∷ []

abbrev pub closing : String → String → Bool → List Frame
closing item text false = []
closing item text true = text_done item text ∷ part_done item text ∷ item_done item text ∷ []

abbrev pub add_item : OutputItem → StreamState → StreamState
add_item it st = record st { agentic_items = st.agentic_items ++ (it ∷ []) }

abbrev pub add_token : String → StreamState → StreamState
add_token text st = record st {
  full_content = str_append st.full_content text;
  text_part_declared = true;
}

-- What the loop does at the last token.
abbrev pub finish_stream : Env → Turn → StreamState → World → StreamRun
finish_stream env t st w =
    let outs = st.agentic_items ++ text_to_output_items st.full_content in
    record {
      frames =
          closing (item_id env) st.full_content st.text_part_declared
          ++ (completed (shown env t (client_facing_output outs) "completed") ∷ []);
      ended = finished;
      world = complete_turn env t outs w;
    }

unfoldable pub stream_loop : Env → Turn → StreamState → List StreamEvent → World → StreamRun
stream_loop env t st [] w = record { frames = []; ended = waiting; world = w }
stream_loop env t st (client_gone ∷ es) w = record { frames = []; ended = disconnected; world = w }
stream_loop env t st (passed_over ∷ es) w = stream_loop env t st es w
stream_loop env t st (tool_called c ∷ es) w = stream_loop env t (add_item (function_call c) st) es w
stream_loop env t st (tool_returned id out ∷ es) w =
    stream_loop env t (add_item (function_call_output id out) st) es w
stream_loop env t st (token text true ∷ es) w = finish_stream env t st w
stream_loop env t st (token text false ∷ es) w =
    written (opening (item_id env) st.text_part_declared ++ (text_delta (item_id env) text ∷ []))
      (stream_loop env t (add_token text st) es w)

pub data StreamAnswer : Type 0 where
  not_supported : HandlerErr → StreamAnswer
  streamed : List Frame → StreamEnd → StreamAnswer

abbrev pub stream_answer : StreamRun → StreamAnswer × World
stream_answer run = (streamed run.frames run.ended, run.world)

unfoldable pub handle_responses_streaming :
    Env → Turn → List StreamEvent → World → StreamAnswer × World
handle_responses_streaming env t es w =
    if env.flusher
    then (let start = shown env t [] "in_progress" in
        stream_answer
          (written (created start ∷ in_progress start ∷ []) (stream_loop env t no_text es w)))
    else (not_supported (internal_error "Streaming not supported"), w)
