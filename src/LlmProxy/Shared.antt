-- ===== src/LlmProxy/Shared.antt =====
-- internal/llmproxy/server.go and internal/broker/broker.go: all requests of the proxy share one
-- identity.
use microagent.Prelude.{
  String, Bool, true, false, ◌≡◌, refl, ap, ◌∙◌, none, some, List, [], if◌then◌else◌,
}
use microagent.Prelude.Int.{ℤ}
use microagent.Slots.{SlotTable, release_by_agent, is_owned_by, normalize_class, class_eq, class_of}
use microagent.Slots.Release.{release_by_agent-is_owned_by}
use microagent.Broker.{
  Env, Broker, Message, handle_message, handle_slot_release, free_agent_slots, assign_from_queue,
  best_request, is_nil,
}
use microagent.Broker.Reach.{Reach, Reach-WellFormed}
use microagent.Broker.Llm.{
  LlmRequestPayload, ProxyEvent, proxy, send_done_on_reply, handle_llm_request,
}
use microagent.Agent.{no_slot, release_message}

nothing_waits : (env : Env) (b : Broker) → b.pending_queue ≡ [] → assign_from_queue env b ≡ b
unfolding assign_from_queue best_request
nothing_waits env b e =
    let none_chosen : best_request b.slots 0 none b.pending_queue ≡ none =
      ap (best_request b.slots 0 none) e in
    rw (none_chosen, assign_from_queue) refl

free_agent_slots_slots :
    (env : Env) (a : String) (b : Broker)
    → b.pending_queue ≡ []
    → (free_agent_slots env a b).slots ≡ (release_by_agent a b.slots).0
unfolding free_agent_slots
free_agent_slots_slots env a b e =
    either (is_nil (release_by_agent a b.slots).1)
      (record b { slots = (release_by_agent a b.slots).0 }) e
  where
    either :
        (nil : Bool) (after : Broker)
        → after.pending_queue ≡ []
        → (if nil then after else assign_from_queue env after).slots ≡ after.slots
    either true after e = refl
    either false after e = ap (λ (b : Broker). b.slots) (nothing_waits env after e)

refused_by_gate :
    (t : SlotTable) (request : Message) (p : LlmRequestPayload) (events : List ProxyEvent)
    → is_owned_by p.slot_id request.source t ≡ false
    → (handle_llm_request t request (some p) events).proxied ≡ false
unfolding handle_llm_request
refused_by_gate t request p events h =
    let (c, known) = normalize_class p.slot_class in
    gates known (class_eq (class_of p.slot_id t) c) (is_owned_by p.slot_id request.source t) h
  where
    gates :
        (known same owned : Bool)
        → owned ≡ false
        → let failed = send_done_on_reply request in
          (if known
            then if same then if owned then proxy request events else failed else failed
            else failed).proxied
          ≡ false
    gates known same true e = absurd (cc)
    gates false same false e = refl
    gates true false false e = refl
    gates true true false e = refl

-- In a reachable state of the broker in which no request waits, the release of all slots that the
-- proxy sends when one of its requests gets no slot takes away the slots of every other request
-- that it is serving: no request for the llama-server that comes under the proxy's identity passes
-- the broker.
pub release_of_all_requests :
    (agents hindsights : ℤ) (env : Env) (corr : String) {b : Broker} (request : Message)
    (p : LlmRequestPayload) (events : List ProxyEvent)
    → Reach agents hindsights b
    → b.pending_queue ≡ []
    → let (m, release) = release_message corr request.source no_slot in
      let after = handle_message env m release b in
      (handle_llm_request after.slots request (some p) events).proxied ≡ false
unfolding handle_message handle_slot_release
release_of_all_requests agents hindsights env corr {b} request p events r e =
    refused_by_gate _ request p events (
      ap (is_owned_by p.slot_id request.source) (free_agent_slots_slots env request.source b e)
      ∙ release_by_agent-is_owned_by request.source b.slots p.slot_id
          (Reach-WellFormed agents hindsights r).0)
