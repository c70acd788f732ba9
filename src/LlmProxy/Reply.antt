-- ===== src/LlmProxy/Reply.antt =====
-- internal/llmproxy/server.go: a streamed answer and one that is not streamed.
use microagent.Prelude.{
  Bool, true, false, ◌≡◌, refl, sym, ap, ◌∙◌, List, [], ◌∷◌, ◌++◌, All, if◌then◌else◌, map, String,
  Bool-cases, inl, inr, arith,
}
use Prim.Native.String.{◌++◌ as str_append}
use microagent.Prelude.Text.{str_eq}
use microagent.Broker.{is_nil}
use microagent.Broker.Llm.{ToolCall}
use microagent.Gateway.Stream.Frames.{joined_tokens}
use microagent.LlmProxy.{
  ProxyMessage, passed_over, tool_call, token, Poll, context_done, client_gone, read_failed,
  messages, Consumed, finished, waiting, stopped, heard_token, consume_messages,
  consume_reply_with_callbacks, finish_reason, role_chunk, content_chunk, done_mark, content_chunks,
  final_chunk, Call, completion, chunks, join, aggregate_response, stream_response,
}

-- A poll that reads or fails to.
abbrev pub IsRead : Poll → Type 0
IsRead context_done = ⊥
IsRead client_gone = ⊥
IsRead read_failed = Unit
IsRead (messages ms) = Unit

abbrev pub all_messages : List Poll → List ProxyMessage
all_messages [] = []
all_messages (messages ms ∷ ps) = ms ++ all_messages ps
all_messages (read_failed ∷ ps) = all_messages ps
all_messages (context_done ∷ ps) = all_messages ps
all_messages (client_gone ∷ ps) = all_messages ps

consume_messages-append :
    (ms ns : List ProxyMessage) (next : Consumed)
    → consume_messages (ms ++ ns) next ≡ consume_messages ms (consume_messages ns next)
unfolding consume_messages
consume_messages-append [] ns next = refl
consume_messages-append (passed_over ∷ ms) ns next = consume_messages-append ms ns next
consume_messages-append (tool_call c ∷ ms) ns next =
    ap (λ (r : Consumed). record r { calls = c ∷ r.calls }) (consume_messages-append ms ns next)
consume_messages-append (token t true ∷ ms) ns next = refl
consume_messages-append (token t false ∷ ms) ns next =
    ap (heard_token t) (consume_messages-append ms ns next)

-- The loop does not depend on how the messages come in reads, nor on reads that fail.
consume_reply_with_callbacks_lem :
    (client : Bool) (ps : List Poll)
    → All IsRead ps
    → consume_reply_with_callbacks client ps ≡ consume_messages (all_messages ps) (stopped waiting)
unfolding consume_reply_with_callbacks consume_messages
consume_reply_with_callbacks_lem client [] h = refl
consume_reply_with_callbacks_lem client (context_done ∷ ps) h = absurd h.0
consume_reply_with_callbacks_lem client (client_gone ∷ ps) h = absurd h.0
consume_reply_with_callbacks_lem client (read_failed ∷ ps) h =
    consume_reply_with_callbacks_lem client ps h.1
consume_reply_with_callbacks_lem client (messages ms ∷ ps) h =
    ap (consume_messages ms) (consume_reply_with_callbacks_lem client ps h.1)
    ∙ sym (consume_messages-append ms (all_messages ps) (stopped waiting))

-- The texts of the tokens that are not empty, and the calls.
abbrev pub texts_in : List ProxyMessage → List String
texts_in [] = []
texts_in (passed_over ∷ ms) = texts_in ms
texts_in (tool_call c ∷ ms) = texts_in ms
texts_in (token t last ∷ ms) = if str_eq t "" then texts_in ms else t ∷ texts_in ms

abbrev pub calls_in : List ProxyMessage → List ToolCall
calls_in [] = []
calls_in (passed_over ∷ ms) = calls_in ms
calls_in (tool_call c ∷ ms) = c ∷ calls_in ms
calls_in (token t last ∷ ms) = calls_in ms

-- Not the last token.
abbrev pub GoesOn : ProxyMessage → Type 0
GoesOn passed_over = Unit
GoesOn (tool_call c) = Unit
GoesOn (token t last) = last ≡ false

abbrev pub reason_for : List ToolCall → String
reason_for calls = if is_nil calls then "stop" else "tool_calls"

consume_messages-last :
    (body : List ProxyMessage) (t : String) (rest : List ProxyMessage) (next : Consumed)
    → All GoesOn body
    → consume_messages (body ++ (token t true ∷ rest)) next
      ≡ record { tokens = texts_in body; calls = calls_in body; ended = finished }
unfolding consume_messages
consume_messages-last [] t rest next h = refl
consume_messages-last (passed_over ∷ ms) t rest next h = consume_messages-last ms t rest next h.1
consume_messages-last (tool_call c ∷ ms) t rest next h =
    ap (λ (r : Consumed). record r { calls = c ∷ r.calls })
      (consume_messages-last ms t rest next h.1)
consume_messages-last (token s true ∷ ms) t rest next h = absurd (ground (arith, h.0))
consume_messages-last (token s false ∷ ms) t rest next h = elim (Bool-cases (str_eq s "")) [
  | inl e ↦ rw e (consume_messages-last ms t rest next h.1)
  | inr e ↦ rw e (
      ap (λ (r : Consumed). record r { tokens = s ∷ r.tokens })
        (consume_messages-last ms t rest next h.1))
]

join-joined_tokens : (ts : List String) → join ts ≡ joined_tokens ts
unfolding join
join-joined_tokens [] = refl
join-joined_tokens (t ∷ ts) = ap (str_append t) (join-joined_tokens ts)

content_chunks-map : (ts : List String) → content_chunks ts ≡ map content_chunk ts
content_chunks-map [] = refl
content_chunks-map (t ∷ ts) = ap (content_chunk t ∷◌) (content_chunks-map ts)

finish_reason-reason_for : (cs : List ToolCall) → finish_reason cs ≡ reason_for cs
unfolding finish_reason
finish_reason-reason_for [] = refl
finish_reason-reason_for (c ∷ cs) = refl

-- While neither the context nor the client is done, an answer whose messages come to a last token is
-- the same streamed or not, and does not depend on how the messages come in reads: the content is
-- the texts of the tokens before the last one joined, and the stream is the role, a chunk for each
-- of these texts that is not empty, and a chunk with all calls that came before the last token; both
-- have the finish reason "tool_calls" if there are calls, and "stop" if not. (The writer is a
-- flusher and the first chunk can be written.)
pub stream_response-aggregate_response :
    (call : Call) (body : List ProxyMessage) (t : String) (rest : List ProxyMessage)
    → All IsRead call.polls
    → call.flusher ≡ true
    → call.first_written ≡ true
    → all_messages call.polls ≡ body ++ (token t true ∷ rest)
    → All GoesOn body
    → let texts = texts_in body in
      let calls = calls_in body in
      (aggregate_response call ≡ completion (joined_tokens texts) calls (reason_for calls))
      × (stream_response call
          ≡ chunks (
              (role_chunk ∷ map content_chunk texts)
              ++ (final_chunk calls (reason_for calls) ∷ done_mark ∷ [])))
unfolding aggregate_response stream_response
stream_response-aggregate_response call body t rest h f w m g =
    let c : Consumed = record { tokens = texts_in body; calls = calls_in body; ended = finished } in
    let same = λ (client : Bool).
      consume_reply_with_callbacks_lem client call.polls h
      ∙ ap (λ ms. consume_messages ms (stopped waiting)) m
      ∙ consume_messages-last body t rest (stopped waiting) g in
    (
      rw (same false)
          (rw (join-joined_tokens c.tokens) (rw (finish_reason-reason_for c.calls) refl)),
      rw (f, w, same true)
          (rw (content_chunks-map c.tokens) (rw (finish_reason-reason_for c.calls) refl)),
    )
