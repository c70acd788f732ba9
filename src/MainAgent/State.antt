-- ===== src/MainAgent/State.antt =====
-- cmd/main-agent/main.go: the types of a turn.
use microagent.Prelude.{ℕ, String, Bool, Option, List}
use microagent.Broker.Llm.{ToolCall}
use microagent.Response.{Map}
use microagent.Response.Session.{ChatMsg}
use microagent.Gateway.Reply.{ToolResult, ChatResponse}
use microagent.Agent.Execute.{Callback}
use microagent.Tools.{Registry}

-- `skills.Manifest`, as far as a turn reads it.
pub record Manifest : Type 0 where
  pub name : String
  pub description : String
  pub allowed_tools : List String

pub record Deps : Type 0 where
  pub registry : Registry
  -- `skills.Store`: the manifests in the order of `List`.
  pub skills : List Manifest
  pub base_tools : List String
  pub max_iter : ℕ
  pub json_error : String → String
  -- A JSON object as the list of its members, and the JSON text of a string.
  pub decode_object : String → Option (List (String × String))
  pub encode_object : List (String × String) → Option String
  pub quote : String → String
  -- The member `name` of a JSON object, and `strings.TrimSpace`.
  pub name_field : String → Option String
  pub trim_space : String → String
  -- Whether Redis can be reached.
  pub reachable : Bool

pub data RunEnd : Type 0 where
  ok_end preempted_end error_end : RunEnd

pub data Iteration : Type 0 where
  slot_failed : Iteration
  executed : (content : String) → List ToolCall → List Callback → RunEnd → Iteration
  -- The run of the model never returns; what it has called back.
  unfinished : List Callback → Iteration

-- What the agent publishes: tokens, calls and results on the session's channels, the last token.
pub data Published : Type 0 where
  token_sent : String → Published
  call_sent : ToolCall → Published
  result_sent : (call_id output : String) → Published
  done_sent : Published
  reply_sent : ChatResponse → Published

pub record Turn : Type 0 where
  pub messages : List ChatMsg
  pub final_content : String
  pub all_tool_calls : List ToolCall
  pub all_tool_results : List ToolResult
  pub active_name : String
  pub active_skill : Option Manifest
  pub failed : Bool
  pub published : List Published
  -- The active skills of the sessions in Redis.
  pub active_skills : Map String
