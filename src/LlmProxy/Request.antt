-- ===== src/LlmProxy/Request.antt =====
-- internal/llmproxy/server.go: the types of the proxy's requests and answers.
use microagent.Prelude.{String, Bool, Option, List, ℕ}
use microagent.Prelude.Int.{ℤ}
use microagent.Broker.Llm.{ToolCall}
use microagent.Response.Session.{ChatMsg}
use microagent.Agent.{Sent, SlotReply}
use microagent.LlmProxy.Consume.{Poll}

pub record ProxyError : Type 0 where
  pub status : ℕ
  pub code : String

-- The deltas of a stream, the last of them with its finish reason, and the end mark.
pub data Chunk : Type 0 where
  role_chunk done_mark : Chunk
  content_chunk : String → Chunk
  final_chunk : List ToolCall → String → Chunk

pub data ProxyAnswer : Type 0 where
  proxy_error : ProxyError → ProxyAnswer
  completion : (content : String) → List ToolCall → (finish : String) → ProxyAnswer
  chunks : List Chunk → ProxyAnswer
  -- The reply loop goes on, after these chunks.
  pending : List Chunk → ProxyAnswer

-- `openAIChatRequest`; the tools are passed on as they come.
pub record ProxyRequest : Type 0 where
  pub model : String
  pub messages : List ChatMsg
  pub stream : Bool
  pub tools : String
  pub tool_choice : String

pub record LlmRequest : Type 0 where
  pub slot_id : ℤ
  pub slot_class : String
  pub messages : List ChatMsg
  pub stream : Bool
  pub tools : String
  pub tool_choice : String
  pub reply_stream : String

pub record Call : Type 0 where
  pub identity : String
  pub unmarshal : String → Option String
  pub correlation_id : String
  pub reply_stream : String
  pub llm_reply_stream : String
  -- Whether each message is made and published, and the reader's group is there.
  pub request_made : Bool
  pub request_published : Bool
  pub reply : SlotReply
  pub ack_made : Bool
  pub ack_published : Bool
  pub release_made : Bool
  pub release_published : Bool
  pub llm_made : Bool
  pub llm_published : Bool
  pub group_ensured : Bool
  -- Whether the writer is a flusher, and whether the first chunk is written.
  pub flusher : Bool
  pub first_written : Bool
  pub polls : List Poll

-- What the proxy has sent.
pub record Outbox : Type 0 where
  pub slot_requests : Sent
  pub llm_requests : List LlmRequest
