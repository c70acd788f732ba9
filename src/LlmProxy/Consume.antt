-- ===== src/LlmProxy/Consume.antt =====
-- `consumeReplyWithCallbacks` of internal/llmproxy/server.go, the loop that reads a reply stream.
use microagent.Prelude.{String, Bool, true, false, List, [], ◌∷◌, if◌then◌else◌}
use microagent.Prelude.Text.{str_eq}
use microagent.Broker.Llm.{ToolCall}

-- What one read of the reply stream comes to, or what ends the loop before it.
pub data ProxyMessage : Type 0 where
  -- A message that does not decode, or of another type.
  passed_over : ProxyMessage
  tool_call : ToolCall → ProxyMessage
  token : String → Bool → ProxyMessage

pub data Poll : Type 0 where
  context_done client_gone read_failed : Poll
  messages : List ProxyMessage → Poll

pub data ConsumeEnd : Type 0 where
  finished context_error waiting : ConsumeEnd

-- What the two callbacks were called with, and how the loop ended.
pub record Consumed : Type 0 where
  pub tokens : List String
  pub calls : List ToolCall
  pub ended : ConsumeEnd

abbrev pub stopped : ConsumeEnd → Consumed
stopped ended = record { tokens = []; calls = []; ended = ended }

abbrev pub heard_token : String → Consumed → Consumed
heard_token t c = if str_eq t "" then c else record c { tokens = t ∷ c.tokens }

-- The messages of one read; `next` is the rest of the loop.
unfoldable pub consume_messages : List ProxyMessage → Consumed → Consumed
consume_messages [] next = next
consume_messages (passed_over ∷ ms) next = consume_messages ms next
consume_messages (tool_call c ∷ ms) next =
    let rest = consume_messages ms next in record rest { calls = c ∷ rest.calls }
consume_messages (token t true ∷ ms) next = stopped finished
consume_messages (token t false ∷ ms) next = heard_token t (consume_messages ms next)

-- `consumeReplyWithCallbacks`; `client` says whether a client request is given. Where the polls
-- end, the loop goes on.
unfoldable pub consume_reply_with_callbacks : Bool → List Poll → Consumed
consume_reply_with_callbacks client [] = stopped waiting
consume_reply_with_callbacks client (context_done ∷ ps) = stopped context_error
consume_reply_with_callbacks client (client_gone ∷ ps) =
    let rest = consume_reply_with_callbacks client ps in
    if client then stopped context_error else rest
consume_reply_with_callbacks client (read_failed ∷ ps) = consume_reply_with_callbacks client ps
consume_reply_with_callbacks client (messages ms ∷ ps) =
    consume_messages ms (consume_reply_with_callbacks client ps)
