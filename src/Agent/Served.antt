-- ===== src/Agent/Served.antt =====
-- internal/agent/runtime.go with internal/broker/broker.go: an agent that gets a slot, uses it and
-- gives it back.
use microagent.Prelude.{
  ℕ, zero, suc, String, Bool, true, false, ◌≡◌, ◌≢◌, refl, sym, ap, ◌∙◌, some, List, [], ◌∷◌, ◌++◌,
  if◌then◌else◌, inl, inr, arith, get_elem?, set, get_elem?-set_self,
}
use mathlib.Core.Option.{some-injective}
use microagent.Prelude.Int.{ℤ, pos, eqb_ℤ}
use microagent.Slots.{
  agent, SlotEntry, SlotTable, unassigned, normalize_class, find_unassigned, blank,
  provisional_entry, assigned_entry, release,
}
use microagent.Slots.WellFormed.{WellFormed}
use microagent.Slots.Find.{find_unassigned_first}
use microagent.Slots.TwoPhase.{IsFresh, commit-set, set-blank}
use microagent.Broker.{
  Broker, Env, Message, Outgoing, slot_assigned_ack, slot_release, handle_message,
  handle_slot_request, handle_slot_assigned_ack, handle_slot_release, free_agent_slots,
  assign_from_queue, reclaim,
}
use microagent.Broker.Offer.{offer_slot_free, assign_from_queue_idle}
use microagent.Broker.Llm.{LlmRequestPayload, ProxyEvent, handle_llm_request}
use microagent.Broker.Llm.Gate.{handle_llm_request_proxied}
use microagent.Agent.Acquire.{release_slot_once}
use microagent.Agent.{
  Ask, Sent, Runtime, new_runtime, slot_assigned, no_slot, message, request_message, ack_message,
  release_message, on_slot_reply, request_slot, release_slot,
}

-- The broker takes the agent's messages in order.
abbrev pub receive : Env → Sent → Broker → Broker
receive env [] b = b
receive env ((m, i) ∷ ms) b = receive env ms (handle_message env m i b)

-- An acquisition whose every call succeeds, with a reply that names a slot.
abbrev pub all_well : String → String → ℤ → Ask
all_well corr reply_stream slot = record {
  correlation_id = corr;
  reply_stream = reply_stream;
  request_made = true;
  request_published = true;
  reply = slot_assigned slot;
  ack_made = true;
  ack_published = true;
  release_made = true;
  release_published = true;
}

set-set : (t : SlotTable) (k : ℕ) (x y : SlotEntry) → set (set t k x) k y ≡ set t k y
set-set [] k x y = refl
set-set (s ∷ t) zero x y = refl
set-set (s ∷ t) (suc k) x y = ap (s ∷◌) (set-set t k x y)

release-set :
    (t : SlotTable) (k : ℕ) (x s : SlotEntry)
    → get_elem? t k ≡ some s
    → x.class ≡ s.class
    → release (pos k) (set t k x) ≡ set t k (blank k s.class)
unfolding release
release-set t k x s g c =
    rw (get_elem?-set_self t k x g, release) (rw (set-set t k x (blank k x.class), c) refl)

module _ (env : Env) (corr done reply_stream agent_id : String) (priority : ℤ) (preemptible : Bool)
    (b : Broker) (k : ℕ) where
  abbrev ask : Ask
  ask = all_well corr reply_stream (pos k)

  abbrev holding : Runtime
  holding = (request_slot ask done (new_runtime agent_id priority preemptible)).1

  abbrev freed : Runtime
  freed = (release_slot ask done holding).1

  not_idle : eqb_ℤ (pos k) no_slot ≡ false
  not_idle = ground arith

  holding_sent :
      holding.sent
      ≡ request_message ask (new_runtime agent_id priority preemptible)
        ∷ ack_message ask (pos k) (new_runtime agent_id priority preemptible)
        ∷ []
  unfolding request_slot on_slot_reply
  holding_sent = refl

  freed_sent :
      freed.sent
      ≡ request_message ask (new_runtime agent_id priority preemptible)
        ∷ ack_message ask (pos k) (new_runtime agent_id priority preemptible)
        ∷ release_message done agent_id (pos k)
        ∷ []
  unfolding request_slot on_slot_reply
  freed_sent = ap (λ (r : Runtime). r.sent) (release_slot_once ask ask done done holding not_idle).0

  -- The broker after the request, when `s` is the entry of the free slot.
  abbrev offered : SlotEntry → Broker
  offered s = record b {
    slots = set b.slots k (provisional_entry k s.class agent_id priority corr env.now);
    timers = b.timers ++ reclaim corr ∷ [];
    published = Outgoing.slot_assigned reply_stream corr k ∷ b.published;
  }

  -- After the acknowledgement.
  abbrev given : SlotEntry → Broker
  given s = record (offered s) {
    slots = set b.slots k (assigned_entry k s.class agent_id priority env.now);
  }

  module _ (s : SlotEntry) (at : get_elem? b.slots k ≡ some s) (free : s.state ≡ unassigned)
      (fresh : IsFresh corr b.slots) (alone : env.between ≡ []) (named : reply_stream ≢ "")
      (ok : env.publish_ok reply_stream ≡ true)
      (found : find_unassigned agent b.slots ≡ some k) where
    received_request :
        let (m, i) = request_message ask (new_runtime agent_id priority preemptible) in
        handle_message env m i b ≡ offered s
    unfolding handle_message handle_slot_request normalize_class
    received_request =
        rw (found, handle_slot_request)
          (offer_slot_free env _ _ agent b agent k s at free alone named ok)

    received_ack :
        let (m, i) = ack_message ask (pos k) (new_runtime agent_id priority preemptible) in
        handle_message env m i (offered s) ≡ given s
    unfolding handle_message handle_slot_assigned_ack
    received_ack =
        ap (λ t. record (offered s) { slots = t })
          (ap (λ x. x.0) (commit-set b.slots k k env.now s.class agent_id priority corr fresh at))

    used : receive env holding.sent b ≡ given s
    used =
        ap (λ ms. receive env ms b) holding_sent
        ∙ ap
            (handle_message env (message corr agent_id "")
              (slot_assigned_ack (some (record { agent_id = agent_id; slot_id = pos k }))))
            received_request
        ∙ received_ack

    received_release :
        WellFormed 0 b.slots
        → b.pending_queue ≡ []
        → let (m, i) = release_message done agent_id (pos k) in
          (handle_message env m i (given s)).slots ≡ b.slots
    unfolding handle_message handle_slot_release
    received_release w idle =
        ap
          (λ i.
            (if i
              then free_agent_slots env agent_id (given s)
              else assign_from_queue env
                  (record (given s) { slots = release (pos k) (given s).slots })).slots)
          not_idle
        ∙ ap (λ (x : Broker). x.slots)
            (assign_from_queue_idle env
              (record (given s) { slots = release (pos k) (given s).slots }) idle)
        ∙ release-set b.slots k (assigned_entry k s.class agent_id priority env.now) s at refl
        ∙ set-blank 0 b.slots k k s w at free (omega arith)

    returned :
        WellFormed 0 b.slots → b.pending_queue ≡ [] → (receive env freed.sent b).slots ≡ b.slots
    returned w idle =
        ap (λ ms. (receive env ms b).slots) freed_sent
        ∙ ap
            (λ x.
              (handle_message env (message done agent_id "")
                (slot_release (some (record { agent_id = agent_id; slot_id = pos k }))) x).slots)
            (ap
                (handle_message env (message corr agent_id "")
                  (slot_assigned_ack (some (record { agent_id = agent_id; slot_id = pos k }))))
                received_request
              ∙ received_ack)
        ∙ received_release w idle

    passes :
        s.class ≡ agent
        → (request : Message) (llm : LlmRequestPayload) (events : List ProxyEvent)
        → request.source ≡ agent_id
        → llm.slot_id ≡ pos k
        → normalize_class llm.slot_class ≡ (agent, true)
        → (handle_llm_request (given s).slots request (some llm) events).proxied ≡ true
    passes class request llm events from slot known =
        (handle_llm_request_proxied (given s).slots request llm events).1 (
          agent,
          assigned_entry k s.class agent_id priority env.now,
          known,
          record {
            number = (k, slot, get_elem?-set_self b.slots k _ at);
            of_class = class;
            held = λ q. absurd (cc);
            owner = sym from;
          },
        )

    served_lem :
        WellFormed 0 b.slots
        → b.pending_queue ≡ []
        → s.class ≡ agent
        → let served = receive env holding.sent b in
          (served.published ≡ Outgoing.slot_assigned reply_stream corr k ∷ b.published)
          × ((request : Message) (llm : LlmRequestPayload) (events : List ProxyEvent)
              → request.source ≡ agent_id
              → llm.slot_id ≡ holding.slot_id
              → normalize_class llm.slot_class ≡ (agent, true)
              → (handle_llm_request served.slots request (some llm) events).proxied ≡ true)
          × ((receive env freed.sent b).slots ≡ b.slots)
    unfolding request_slot on_slot_reply
    served_lem w idle class = (
      ap (λ (x : Broker). x.published) used,
      λ request llm events from slot known.
          ap (λ (x : Broker). (handle_llm_request x.slots request (some llm) events).proxied) used
          ∙ passes class request llm events from slot known,
      returned w idle,
    )

-- An agent that asks for a slot while its class has a free one is told the first one, under its own
-- correlation, by the broker; once it has acknowledged that, every LLM request that it sends for
-- the slot, with the class of agents or none, is proxied; and after it has given the slot back the
-- table is as before. (The table is well formed, the correlation fresh, nobody waits, no other
-- goroutine comes between, the agent's calls succeed, and the named reply stream takes the reply,
-- which the agent gets.)
pub request_slot-release_slot :
    (env : Env) (corr done reply_stream agent_id : String) (priority : ℤ) (preemptible : Bool)
    (b : Broker) (k : ℕ)
    → WellFormed 0 b.slots
    → IsFresh corr b.slots
    → b.pending_queue ≡ []
    → env.between ≡ []
    → reply_stream ≢ ""
    → env.publish_ok reply_stream ≡ true
    → find_unassigned agent b.slots ≡ some k
    → let ask = all_well corr reply_stream (pos k) in
      let holding = (request_slot ask done (new_runtime agent_id priority preemptible)).1 in
      let freed = (release_slot ask done holding).1 in
      let served = receive env holding.sent b in
      (served.published ≡ Outgoing.slot_assigned reply_stream corr k ∷ b.published)
      × ((request : Message) (llm : LlmRequestPayload) (events : List ProxyEvent)
          → request.source ≡ agent_id
          → llm.slot_id ≡ holding.slot_id
          → normalize_class llm.slot_class ≡ (agent, true)
          → (handle_llm_request served.slots request (some llm) events).proxied ≡ true)
      × ((receive env freed.sent b).slots ≡ b.slots)
request_slot-release_slot env corr done reply_stream agent_id priority preemptible b k w fresh idle
      alone named ok found =
    elim (find_unassigned_first agent b.slots w) [
      | inl (e, _) ↦ absurd (cc)
      | inr (i, e, f) ↦
          let q : k ≡ f.index = omega (arith, some-injective k i (sym found ∙ e), f.number) in
          let at : get_elem? b.slots k ≡ some f.entry = rw q f.at in
          served_lem env corr done reply_stream agent_id priority preemptible b k f.entry at
            f.is_free.vacant fresh alone named ok found w idle f.is_free.of_class
    ]
