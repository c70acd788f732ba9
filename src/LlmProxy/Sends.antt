-- ===== src/LlmProxy/Sends.antt =====
-- internal/llmproxy/server.go: what a request to the proxy sends to the broker.
use microagent.Prelude.{
  String, Bool, true, false, not, ◌&&◌, ◌≡◌, refl, sym, ap, ◌∙◌, Option, none, some, [], ◌∷◌, ◌++◌,
  append_assoc, append-nil, if◌then◌else◌,
}
use microagent.Prelude.Int.{ℤ}
use microagent.Agent.{
  Sent, SlotReply, timed_out, undecodable, slot_assigned, no_slot, release_message,
}
use microagent.LlmProxy.{
  Call, ProxyRequest, ProxyAnswer, proxy_error, llm_request_of, Outbox, to_broker, send_release,
  slot_request_message, ack_message, on_slot_reply, acquire_slot, dispatch, has_ended, with_slot,
  handle_chat_completions,
}

-- The release that goes out.
abbrev pub released : Call → String → ℤ → Sent
released call corr slot =
    if call.release_made && call.release_published
    then release_message corr call.identity slot ∷ []
    else []

-- What a decoded request adds to the messages for the broker.
pub data Conversation (call : Call) (corr : String) (req : ProxyRequest)
    : ProxyAnswer → Sent → Type 0 where
  -- No slot: everything is released, whether the request for a slot went out or not.
  refused :
      (asked : Bool)
      → Conversation call corr req
          (proxy_error (record { status = 503; code = "slot_unavailable" }))
          ((if asked then slot_request_message call ∷ [] else []) ++ released call corr no_slot)
  -- A slot, acknowledged, and released once if the answer is complete.
  served :
      {answer : ProxyAnswer} {slot : ℤ}
      → call.reply ≡ slot_assigned slot
      → Conversation call corr req answer (
          slot_request_message call
          ∷ ack_message call slot
          ∷ (if has_ended answer then released call corr slot else []))

-- An outbox with messages added.
abbrev pub Adds : Call → String → ProxyRequest → Outbox → ProxyAnswer × Outbox → Type 0
Adds call corr req before (a, after) =
    (sent : Sent) × Conversation call corr req a sent
    × (after.slot_requests ≡ before.slot_requests ++ sent)

send_release_lem :
    (call : Call) (corr : String) (slot : ℤ) (o : Outbox)
    → (send_release call corr slot o).slot_requests ≡ o.slot_requests ++ released call corr slot
unfolding send_release
send_release_lem call corr slot o = either (call.release_made && call.release_published)
  where
    either :
        (b : Bool)
        → (if b then to_broker (release_message corr call.identity slot) o else o).slot_requests
          ≡ o.slot_requests ++ (if b then release_message corr call.identity slot ∷ [] else [])
    either true = refl
    either false = sym (append-nil o.slot_requests)

dispatch-slot_requests :
    (call : Call) (req : ProxyRequest) (slot : ℤ) (o : Outbox)
    → (dispatch call req slot o).1.slot_requests ≡ o.slot_requests
unfolding dispatch
dispatch-slot_requests call req slot o = either (call.llm_made && call.llm_published) _ _
  where
    either :
        (b : Bool) (a a' : ProxyAnswer)
        → (let sent : Outbox = record o {
          llm_requests = o.llm_requests ++ (llm_request_of call req slot ∷ []);
        } in
            let failure : ProxyAnswer × Outbox = (a, o) in
            let success : ProxyAnswer × Outbox = (a', sent) in
            if not b then failure else success).1.slot_requests
          ≡ o.slot_requests
    either true a a' = refl
    either false a a' = refl

refused_lem :
    (call : Call) (corr : String) (req : ProxyRequest) (asked : Bool) (o : Outbox)
    → Adds call corr req o (
        with_slot call corr req
          (none, if asked then to_broker (slot_request_message call) o else o))
refused_lem call corr req true o = (
  _,
  refused true,
  send_release_lem call corr no_slot (to_broker (slot_request_message call) o)
      ∙ append_assoc o.slot_requests (slot_request_message call ∷ []) (released call corr no_slot),
)
refused_lem call corr req false o = (_, refused false, send_release_lem call corr no_slot o)

served_lem :
    (call : Call) (corr : String) (req : ProxyRequest) (slot : ℤ) (o : Outbox)
    → call.reply ≡ slot_assigned slot
    → Adds call corr req o (
        with_slot call corr req
          (some slot, to_broker (ack_message call slot) (to_broker (slot_request_message call) o)))
served_lem call corr req slot o e =
    let base = to_broker (ack_message call slot) (to_broker (slot_request_message call) o) in
    let (a, after) = dispatch call req slot base in
    (_, served e, ending (has_ended a) after (dispatch-slot_requests call req slot base))
  where
    ask : Sent
    ask = slot_request_message call ∷ []

    ack : Sent
    ack = ack_message call slot ∷ []

    ending :
        (b : Bool) (after : Outbox)
        → after.slot_requests ≡ (o.slot_requests ++ ask) ++ ack
        → (if b then send_release call corr slot after else after).slot_requests
          ≡ o.slot_requests
            ++ (slot_request_message call
                ∷ ack_message call slot
                ∷ (if b then released call corr slot else []))
    ending true after q =
        send_release_lem call corr slot after
        ∙ ap (◌++ released call corr slot) (q ∙ append_assoc o.slot_requests ask ack)
        ∙ append_assoc o.slot_requests (ask ++ ack) (released call corr slot)
    ending false after q = q ∙ append_assoc o.slot_requests ask ack

replied_lem :
    (call : Call) (corr : String) (req : ProxyRequest) (reply : SlotReply) (o : Outbox)
    → call.reply ≡ reply
    → Adds call corr req o (
        with_slot call corr req
          (on_slot_reply call reply (to_broker (slot_request_message call) o)))
unfolding on_slot_reply
replied_lem call corr req timed_out o e = refused_lem call corr req true o
replied_lem call corr req undecodable o e = refused_lem call corr req true o
replied_lem call corr req (slot_assigned slot) o e = acked (call.ack_made && call.ack_published)
  where
    acked :
        (b : Bool)
        → let asked = to_broker (slot_request_message call) o in
          let failure : Option ℤ × Outbox = (none, asked) in
          let success : Option ℤ × Outbox = (some slot, to_broker (ack_message call slot) asked) in
          Adds call corr req o (with_slot call corr req (if b then success else failure))
    acked true = served_lem call corr req slot o e
    acked false = refused_lem call corr req true o

-- Whatever becomes of a decoded request, the broker hears one of two things from the proxy: the
-- request for a slot, if it went out, and the release of everything, with the answer 503; or the
-- request, the acknowledgement of the slot of the reply, and, once the answer is complete, exactly
-- one release of that slot. Releases are there when they can be published.
pub handle_chat_completions-Conversation :
    (call : Call) (corr : String) (req : ProxyRequest) (o : Outbox)
    → Adds call corr req o (handle_chat_completions call corr (some req) o)
unfolding handle_chat_completions acquire_slot
handle_chat_completions-Conversation call corr req o =
    asked_for (call.request_made && call.request_published)
  where
    asked_for :
        (asked : Bool)
        → Adds call corr req o (
            with_slot call corr req (
              if asked
              then on_slot_reply call call.reply (to_broker (slot_request_message call) o)
              else (none, o)))
    asked_for false = refused_lem call corr req false o
    asked_for true = replied_lem call corr req call.reply o refl
