-- ===== src/Broker/Llm.antt =====
-- `handleLLMRequest` of internal/broker/broker.go: the gate in front of the llama-server.
-- What the proxied call sends over its two channels is given as the list of events in the order in
-- which the `select` loop takes them; the llama-server behind them is not part of the repository.
-- The result lists the replies that the handler tries to publish, in order; it ignores failures.
pub mod Gate
use microagent.Prelude.{
  String, Bool, true, false, Option, none, some, List, [], ◌∷◌, ◌++◌, map, if◌then◌else◌,
}
use microagent.Prelude.Int.{ℤ}
use microagent.Prelude.Text.{str_eq}
use microagent.Slots.{SlotTable, normalize_class, class_of, class_eq, is_owned_by}
use microagent.Broker.{Message}

pub record ToolCall : Type 0 where
  pub id : String
  pub type : String
  pub name : String
  pub arguments : String

pub data ProxyEvent : Type 0 where
  token : String → ProxyEvent
  tool_call : ToolCall → ProxyEvent

pub data Reply : Type 0 where
  token_reply : String → Reply
  tool_call_reply : ToolCall → Reply
  done_reply : Reply

-- The fields of `messaging.LLMRequestPayload` that the gate reads.
pub record LlmRequestPayload : Type 0 where
  pub slot_id : ℤ
  pub slot_class : String

pub record LlmOutcome : Type 0 where
  pub proxied : Bool
  pub replies : List Reply

abbrev pub reply_of : ProxyEvent → Reply
reply_of (token t) = token_reply t
reply_of (tool_call c) = tool_call_reply c

-- `sendDoneOnReply`
abbrev pub send_done_on_reply : Message → LlmOutcome
send_done_on_reply msg = record {
  proxied = false;
  replies = if str_eq msg.reply_stream "" then [] else done_reply ∷ [];
}

-- With no reply stream the channels are drained.
abbrev pub proxy : Message → List ProxyEvent → LlmOutcome
proxy msg events = record {
  proxied = true;
  replies = if str_eq msg.reply_stream "" then [] else map reply_of events ++ done_reply ∷ [];
}

unfoldable pub handle_llm_request :
    SlotTable → Message → Option LlmRequestPayload → List ProxyEvent → LlmOutcome
handle_llm_request t msg none events = record { proxied = false; replies = [] }
handle_llm_request t msg (some p) events =
    let (requested, known) = normalize_class p.slot_class in
    if known
    then if class_eq (class_of p.slot_id t) requested
      then if is_owned_by p.slot_id msg.source t then proxy msg events else send_done_on_reply msg
      else send_done_on_reply msg
    else send_done_on_reply msg
