-- ===== src/Gateway/Reply.antt =====
-- `handleResponsesNonStreaming` of internal/gateway/responses.go.
-- `Reply` is what waiting for the agent's reply comes to.
use microagent.Prelude.{String, Option, none, some, List, [], ◌∷◌, ◌++◌}
use microagent.Broker.Llm.{ToolCall}
use microagent.Response.{Map, lookup, insert}
use microagent.Response.Content.{OutputItem}
use microagent.Gateway.{
  Env, World, HandlerErr, internal_error, Turn, complete_turn, ResponsesResponse, shown,
  client_facing_output, text_to_output_items,
}

pub record ToolResult : Type 0 where
  pub call_id : String
  pub output : String

-- The fields of `ChatResponsePayload` that the gateway reads.
pub record ChatResponse : Type 0 where
  pub content : String
  pub tool_calls : List ToolCall
  pub tool_results : List ToolResult

pub data Reply : Type 0 where
  timed_out undecodable : Reply
  reply : ChatResponse → Reply

abbrev pub function_call : ToolCall → OutputItem
function_call c = record {
  type = "function_call";
  role = "";
  content = [];
  call_id = c.id;
  name = c.name;
  args = c.arguments;
  output = "";
}

abbrev pub function_call_output : String → String → OutputItem
function_call_output id output = record {
  type = "function_call_output";
  role = "";
  content = [];
  call_id = id;
  name = "";
  args = "";
  output = output;
}

-- `resultByCallID`: a later result of a call replaces the earlier one.
unfoldable pub result_by_call_id : List ToolResult → Map String → Map String
result_by_call_id [] m = m
result_by_call_id (r ∷ rs) m = result_by_call_id rs (insert r.call_id r.output m)

abbrev pub call_items : ToolCall → Option String → List OutputItem
call_items c none = function_call c ∷ []
call_items c (some out) = function_call c ∷ function_call_output c.id out ∷ []

unfoldable pub interleave : List ToolCall → Map String → List OutputItem
interleave [] m = []
interleave (c ∷ cs) m = call_items c (lookup c.id m) ++ interleave cs m

-- `outputItems`
unfoldable pub output_items : ChatResponse → List OutputItem
output_items p =
    interleave p.tool_calls (result_by_call_id p.tool_results []) ++ text_to_output_items p.content

pub data Answer : Type 0 where
  error : HandlerErr → Answer
  body : ResponsesResponse → Answer

unfoldable pub handle_responses_non_streaming : Env → Turn → Reply → World → Answer × World
handle_responses_non_streaming env t timed_out w = (
  error (record { status = 504; code = "timeout"; msg = "Request timed out waiting for response" }),
  w,
)
handle_responses_non_streaming env t undecodable w =
    (error (internal_error "Failed to decode response"), w)
handle_responses_non_streaming env t (reply p) w =
    let outs = output_items p in
    (body (shown env t (client_facing_output outs) "completed"), complete_turn env t outs w)
