-- ===== src/Broker/Defer.antt =====
-- A request for which internal/broker/broker.go has no free slot.
use microagent.Prelude.{
  ◌≡◌, refl, true, Option, none, some, [], ◌∷◌, ◌++◌, arith, All, All-mono, Bool-cases, ◌⊎◌, inl,
  inr,
}
use microagent.Prelude.Int.{◌≤ℤ◌, ◌<ℤ◌, ltb_ℤ}
use microagent.Slots.{
  SlotClass, Victim, normalize_class, find_unassigned, find_lowest_priority_preemptible,
}
use microagent.Slots.Preempt.{Chosen, Candidate, find_lowest_priority_preemptible_max}
use microagent.Broker.{
  Broker, Env, Message, SlotRequest, SlotRequestPayload, preempt, preempt_notice, enqueue,
  preempt_or_enqueue, preempt_agent, handle_slot_request, is_preemptible,
}

-- What becomes of a request that finds no free slot: it waits at the end of the queue, or a victim
-- of its class with a larger priority number is told to yield and a preemption timer runs.
pub data Deferred (msg : Message) (p : SlotRequestPayload) (c : SlotClass) (b b' : Broker)
    : Type 0 where
  waits :
      (r : SlotRequest)
      → r ≡ record {
        agent_id = p.agent_id;
        priority = p.priority;
        correlation_id = msg.correlation_id;
        reply_stream = msg.reply_stream;
        class = c;
      }
      → b' ≡ record b { pending_queue = b.pending_queue ++ r ∷ [] }
      → All (λ s. Candidate c (is_preemptible b.registry) s → s.priority ≤ℤ p.priority) b.slots
      → Deferred msg p c b b'
  preempts :
      (v : Victim)
      → Chosen c (is_preemptible b.registry) b.slots v
      → p.priority <ℤ v.priority
      → b' ≡ record b {
        timers = b.timers ++ preempt v.agent_id v.slot msg p ∷ [];
        published = preempt_notice v.agent_id p.agent_id p.priority ∷ b.published;
      }
      → Deferred msg p c b b'

deferred :
    (msg : Message) (p : SlotRequestPayload) (c : SlotClass) (b : Broker) (o : Option Victim)
    → ((o ≡ none) × All (λ s. ¬ Candidate c (is_preemptible b.registry) s) b.slots)
      ⊎ ((v : Victim) × (o ≡ some v) × Chosen c (is_preemptible b.registry) b.slots v)
    → Deferred msg p c b (preempt_or_enqueue msg p c o b)
unfolding preempt_or_enqueue enqueue preempt_agent
deferred msg p c b o (inl (e, nobody)) =
    rw (e, preempt_or_enqueue)
      (waits _ refl refl (All-mono _ _ b.slots (λ s h k. absurd (h k)) nobody))
deferred msg p c b o (inr (v, e, ch)) = elim (Bool-cases (ltb_ℤ p.priority v.priority)) [
  | inl above ↦ rw (e, preempt_or_enqueue) (rw above (preempts v ch (ground arith) refl))
  | inr below ↦
      rw (e, preempt_or_enqueue)
        (rw below (
          waits _ refl refl (
            All-mono _ _ b.slots (λ s h k. let q = h k in let i = ch.is_victim in ground arith)
              ch.above_all)))
]

no_slot :
    (env : Env) (msg : Message) (p : SlotRequestPayload) (c : SlotClass) (b : Broker)
    → normalize_class p.slot_class ≡ (c, true)
    → find_unassigned c b.slots ≡ none
    → handle_slot_request env msg p b
      ≡ preempt_or_enqueue msg p c
          (find_lowest_priority_preemptible c (is_preemptible b.registry) b.slots)
          b
unfolding handle_slot_request
no_slot env msg p c b known full = ground arith

-- A request for a known class without a free slot is never dropped: it preempts the candidate of
-- the largest priority number, if that exceeds its own, and else it waits, and then no candidate
-- has a larger number than its own. The slot table stays.
pub handle_slot_request_defers :
    (env : Env) (msg : Message) (p : SlotRequestPayload) (c : SlotClass) (b : Broker)
    → normalize_class p.slot_class ≡ (c, true)
    → find_unassigned c b.slots ≡ none
    → Deferred msg p c b (handle_slot_request env msg p b)
handle_slot_request_defers env msg p c b known full = rw (no_slot env msg p c b known full) (
    deferred msg p c b _
      (find_lowest_priority_preemptible_max c (is_preemptible b.registry) b.slots))
