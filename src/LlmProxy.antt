-- ===== src/LlmProxy.antt =====
-- internal/llmproxy/server.go: the proxy through which other services reach the llama-server. The
-- proxy's own messages on the broker's streams are lists, in order. `Call` says which of the steps
-- of one request succeed and what comes back. Chunk ids, times, and the count of outstanding
-- requests are left out.
pub mod Reply
pub mod Sends
pub mod Shared
mod Consume
mod Request
unfoldable pub use Consume.*
unfoldable pub use Request.*
use microagent.Prelude.{
  String, Bool, true, false, not, ◌&&◌, Option, none, some, List, [], ◌∷◌, ◌++◌, if◌then◌else◌, ℕ,
}
use microagent.Prelude.Int.{ℤ, pos, negsuc}
use microagent.Prelude.Text.{str_eq}
use microagent.Broker.{Message, Incoming, slot_request, slot_assigned_ack, slot_release}
use microagent.Broker.Llm.{ToolCall}
use microagent.Response.Session.{ChatMsg}
use microagent.Agent.{
  Sent, SlotReply, timed_out, undecodable, slot_assigned, no_slot, message, release_message,
}

unfoldable pub decode_tool_choice : (String → Option String) → String → String
decode_tool_choice unmarshal raw =
    if str_eq raw "" then "" else elim (unmarshal raw) [ some s ↦ s | none ↦ raw ]

unfoldable pub finish_reason : List ToolCall → String
finish_reason [] = "stop"
finish_reason (c ∷ cs) = "tool_calls"

abbrev pub to_broker : Message × Incoming → Outbox → Outbox
to_broker m o = record o { slot_requests = o.slot_requests ++ (m ∷ []) }

unfoldable pub send_release : Call → String → ℤ → Outbox → Outbox
send_release call corr slot o =
    if call.release_made && call.release_published
    then to_broker (release_message corr call.identity slot) o
    else o

abbrev pub slot_request_message : Call → Message × Incoming
slot_request_message call = (
  message call.correlation_id call.identity call.reply_stream,
  slot_request
      (some (record { agent_id = call.identity; priority = pos 0; slot_class = "hindsight" })),
)

abbrev pub ack_message : Call → ℤ → Message × Incoming
ack_message call slot = (
  message call.correlation_id call.identity "",
  slot_assigned_ack (some (record { agent_id = call.identity; slot_id = slot })),
)

unfoldable pub on_slot_reply : Call → SlotReply → Outbox → Option ℤ × Outbox
on_slot_reply call timed_out o = (none, o)
on_slot_reply call undecodable o = (none, o)
on_slot_reply call (slot_assigned slot) o =
    if call.ack_made && call.ack_published
    then (some slot, to_broker (ack_message call slot) o)
    else (none, o)

-- `none` for an error.
unfoldable pub acquire_slot : Call → Outbox → Option ℤ × Outbox
acquire_slot call o =
    if call.request_made && call.request_published
    then on_slot_reply call call.reply (to_broker (slot_request_message call) o)
    else (none, o)

unfoldable pub join : List String → String
join [] = ""
join (t ∷ ts) = Prim.Native.String.◌++◌ t (join ts)

abbrev pub bad_gateway : ProxyError
bad_gateway = record { status = 502; code = "upstream_error" }

-- The answer of `aggregateResponse`.
abbrev pub aggregated : Consumed → ConsumeEnd → ProxyAnswer
aggregated c finished = completion (join c.tokens) c.calls (finish_reason c.calls)
aggregated c context_error = proxy_error bad_gateway
aggregated c waiting = pending []

unfoldable pub aggregate_response : Call → ProxyAnswer
aggregate_response call =
    let c = consume_reply_with_callbacks false call.polls in aggregated c c.ended

abbrev pub content_chunks : List String → List Chunk
content_chunks [] = []
content_chunks (t ∷ ts) = content_chunk t ∷ content_chunks ts

-- A stream that ends, in whatever way, is closed with its calls.
abbrev pub closed : List Chunk → Consumed → ConsumeEnd → ProxyAnswer
closed written c waiting = pending written
closed written c finished =
    chunks (written ++ (final_chunk c.calls (finish_reason c.calls) ∷ done_mark ∷ []))
closed written c context_error =
    chunks (written ++ (final_chunk c.calls (finish_reason c.calls) ∷ done_mark ∷ []))

unfoldable pub stream_response : Call → ProxyAnswer
stream_response call =
    let c = consume_reply_with_callbacks true call.polls in
    if not call.flusher
    then proxy_error (record { status = 500; code = "internal_error" })
    else if not call.first_written
    then chunks []
    else closed (role_chunk ∷ content_chunks c.tokens) c c.ended

abbrev pub llm_request_of : Call → ProxyRequest → ℤ → LlmRequest
llm_request_of call req slot = record {
  slot_id = slot;
  slot_class = "hindsight";
  messages = req.messages;
  stream = req.stream;
  tools = req.tools;
  tool_choice = decode_tool_choice call.unmarshal req.tool_choice;
  reply_stream = call.llm_reply_stream;
}

-- From the slot on, but for its release.
unfoldable pub dispatch : Call → ProxyRequest → ℤ → Outbox → ProxyAnswer × Outbox
dispatch call req slot o =
    if not (call.llm_made && call.llm_published)
    then (proxy_error (record { status = 502; code = "publish_error" }), o)
    else (
      (if not call.group_ensured
          then proxy_error (record { status = 500; code = "internal_error" })
          else if req.stream
          then stream_response call
          else aggregate_response call),
      record o { llm_requests = o.llm_requests ++ (llm_request_of call req slot ∷ []) },
    )

abbrev pub has_ended : ProxyAnswer → Bool
has_ended (pending written) = false
has_ended _ = true

-- The deferred release, when the handler comes to its end.
abbrev pub deferred : Call → String → ℤ → ProxyAnswer × Outbox → ProxyAnswer × Outbox
deferred call corr slot (a, o) = (a, if has_ended a then send_release call corr slot o else o)

abbrev pub with_slot : Call → String → ProxyRequest → Option ℤ × Outbox → ProxyAnswer × Outbox
with_slot call corr req (none, o) = (
  proxy_error (record { status = 503; code = "slot_unavailable" }),
  send_release call corr no_slot o,
)
with_slot call corr req (some slot, o) = deferred call corr slot (dispatch call req slot o)

-- A body that does not decode is `none`; `corr` is the correlation of the release.
unfoldable pub handle_chat_completions :
    Call → String → Option ProxyRequest → Outbox → ProxyAnswer × Outbox
handle_chat_completions call corr none o =
    (proxy_error (record { status = 400; code = "invalid_request" }), o)
handle_chat_completions call corr (some req) o = with_slot call corr req (acquire_slot call o)
