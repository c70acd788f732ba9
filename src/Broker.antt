-- ===== src/Broker.antt =====
-- internal/broker/broker.go: the arbiter that hands llama-server slots to agents. The broker's
-- state is its slot table, the registry, the queue of waiting requests, the goroutines that sleep
-- until a timeout, and what it has published, latest first. A handler runs to its end; what other
-- goroutines do to the slot table between its two acquisitions of the table's lock is the
-- environment's list of calls `between`, and may be anything. The environment also gives the clock
-- and, for each stream, whether a publication succeeds. Logging is left out. `json.Marshal` of the
-- payloads used here cannot fail, so the branches on its error are left out. A payload that does
-- not decode is `none`.
mod State
pub mod Queue
pub mod Offer
pub mod Defer
pub mod Preemption
pub mod Waiting
pub mod Llm
pub mod Sse
pub mod Invariant
pub mod Reach
unfoldable pub use State.*
use microagent.Prelude.{
  ℕ, zero, suc, String, Bool, true, false, ◌&&◌, Option, none, some, List, [], ◌∷◌, ◌++◌,
  if◌then◌else◌, erase_idx, not,
}
use microagent.Prelude.Int.{ℤ, pos, negsuc, ltb_ℤ, eqb_ℤ}
use microagent.Prelude.Text.{str_eq}
use microagent.Slots.{
  SlotClass, SlotTable, SlotSnapshotEntry, Victim, Call, returns, panics, normalize_class,
  find_unassigned, class_of, class_eq, assign_provisional, commit_assignment, revert_provisional,
  force_assign, release, release_by_agent, find_lowest_priority_preemptible, get_by_agent,
  is_owned_by, snapshot,
}
use microagent.Slots.Ops.{Op, apply_all}
use microagent.Registry.{Registry, get, mark_dead}

unfoldable pub is_preemptible : Registry → String → Bool
is_preemptible r agent_id = elim (get agent_id r) [ none ↦ false | some info ↦ info.preemptible ]

unfoldable pub enqueue : Message → SlotRequestPayload → SlotClass → Broker → Broker
enqueue msg p c b = record b {
  pending_queue =
      b.pending_queue
      ++ record {
        agent_id = p.agent_id;
        priority = p.priority;
        correlation_id = msg.correlation_id;
        reply_stream = msg.reply_stream;
        class = c;
      }
        ∷ [];
}

abbrev pub schedule : Timer → Broker → Broker
schedule w b = record b { timers = b.timers ++ w ∷ [] }

abbrev pub record_publication : Outgoing → Broker → Broker
record_publication o b = record b { published = o ∷ b.published }

-- The best request so far: its index in the queue, the slot found for it, the request.
pub record Choice : Type 0 where
  pub index : ℕ
  pub slot : ℕ
  pub request : SlotRequest

-- `bestIdx == -1 || req.priority < b.pendingQueue[bestIdx].priority`
abbrev pub beats : SlotRequest → Option Choice → Bool
beats r none = true
beats r (some c) = ltb_ℤ r.priority c.request.priority

abbrev pub consider : ℕ → SlotRequest → Option ℕ → Option Choice → Option Choice
consider i r none best = best
consider i r (some sid) best =
    if beats r best then some (record { index = i; slot = sid; request = r }) else best

-- The loop of `assignFromQueue` over the queue from index `i` on.
unfoldable pub best_request : SlotTable → ℕ → Option Choice → List SlotRequest → Option Choice
best_request t i best [] = best
best_request t i best (r ∷ rs) =
    best_request t (suc i) (consider i r (find_unassigned r.class t) best) rs

-- What follows a provisional assignment from the queue: the reply and its failures.
unfoldable pub confirm_queued : Env → ℕ → SlotRequest → Broker → Broker
confirm_queued env slot r b =
    if str_eq r.reply_stream ""
    then record b { slots = (revert_provisional r.correlation_id b.slots).0 }
    else if env.publish_ok r.reply_stream
    then schedule (reclaim r.correlation_id)
        (record_publication (slot_assigned r.reply_stream r.correlation_id slot) b)
    else record b { slots = (revert_provisional r.correlation_id b.slots).0 }

-- The chosen request leaves the queue, and takes its slot unless another goroutine was faster.
unfoldable pub take_choice : Env → Choice → Broker → Broker
take_choice env c b =
    let seen = apply_all env.between b.slots in
    let r = c.request in
    let rest = erase_idx b.pending_queue c.index in
    let (t, done) =
      assign_provisional env.now (pos c.slot) r.agent_id r.priority r.correlation_id seen in
    if done
    then confirm_queued env c.slot r (record b { slots = t; pending_queue = rest })
    else record b { slots = t; pending_queue = rest ++ r ∷ [] }

unfoldable pub assign_from_queue : Env → Broker → Broker
assign_from_queue env b = elim (best_request b.slots 0 none b.pending_queue) [
  | none ↦ b
  | some c ↦ take_choice env c b
]

unfoldable pub send_slot_assigned : Env → Message → ℕ → Broker → Broker
send_slot_assigned env msg slot b =
    if str_eq msg.reply_stream ""
    then b
    else if env.publish_ok msg.reply_stream
    then record_publication (slot_assigned msg.reply_stream msg.correlation_id slot) b
    else let (t, reverted) = revert_provisional msg.correlation_id b.slots in
      elim reverted [
        | none ↦ record b { slots = t }
        | some _ ↦ assign_from_queue env (record b { slots = t })
      ]

unfoldable pub preempt_agent : String → ℕ → Message → SlotRequestPayload → Broker → Broker
preempt_agent victim slot msg p b =
    schedule (preempt victim slot msg p)
      (record_publication (preempt_notice victim p.agent_id p.priority) b)

-- A free slot was found.
unfoldable pub offer_slot : Env → Message → SlotRequestPayload → SlotClass → ℕ → Broker → Broker
offer_slot env msg p c slot b =
    let seen = apply_all env.between b.slots in
    let (t, done) =
      assign_provisional env.now (pos slot) p.agent_id p.priority msg.correlation_id seen in
    if done
    then schedule (reclaim msg.correlation_id)
        (send_slot_assigned env msg slot (record b { slots = t }))
    else enqueue msg p c (record b { slots = t })

-- No free slot: preempt a victim of a larger priority number, or wait.
unfoldable pub preempt_or_enqueue :
    Message → SlotRequestPayload → SlotClass → Option Victim → Broker → Broker
preempt_or_enqueue msg p c none b = enqueue msg p c b
preempt_or_enqueue msg p c (some v) b =
    if ltb_ℤ p.priority v.priority
    then preempt_agent v.agent_id v.slot msg p b
    else enqueue msg p c b

unfoldable pub handle_slot_request : Env → Message → SlotRequestPayload → Broker → Broker
handle_slot_request env msg p b =
    let (c, known) = normalize_class p.slot_class in
    if known
    then elim (find_unassigned c b.slots) [
      | some slot ↦ offer_slot env msg p c slot b
      | none ↦
          preempt_or_enqueue msg p c
            (find_lowest_priority_preemptible c (is_preemptible b.registry) b.slots) b
    ]
    else b

unfoldable pub handle_slot_assigned_ack : Message → SlotAssignedAckPayload → Broker → Broker
handle_slot_assigned_ack msg p b = record b {
  slots = (commit_assignment msg.correlation_id b.slots).0;
}

abbrev pub is_nil {ℓ} : {A : Type ℓ} → List A → Bool
is_nil [] = true
is_nil (x ∷ xs) = false

-- `ReleaseByAgent`, and a waiting request served if anything came free.
unfoldable pub free_agent_slots : Env → String → Broker → Broker
free_agent_slots env agent_id b =
    let (t, released) = release_by_agent agent_id b.slots in
    if is_nil released
    then record b { slots = t }
    else assign_from_queue env (record b { slots = t })

unfoldable pub handle_slot_release : Env → SlotReleasePayload → Broker → Broker
handle_slot_release env p b =
    if eqb_ℤ p.slot_id (negsuc 0)
    then free_agent_slots env p.agent_id b
    else assign_from_queue env (record b { slots = release p.slot_id b.slots })

unfoldable pub handle_dead_agent : Env → String → Broker → Broker
handle_dead_agent env agent_id b = free_agent_slots env agent_id b

-- A message of the slot-request stream.
pub data Incoming : Type 0 where
  slot_request : Option SlotRequestPayload → Incoming
  slot_assigned_ack : Option SlotAssignedAckPayload → Incoming
  slot_release : Option SlotReleasePayload → Incoming
  unknown_type : Incoming

unfoldable pub handle_message : Env → Message → Incoming → Broker → Broker
handle_message env msg (slot_request (some p)) b = handle_slot_request env msg p b
handle_message env msg (slot_assigned_ack (some p)) b = handle_slot_assigned_ack msg p b
handle_message env msg (slot_release (some p)) b = handle_slot_release env p b
handle_message env msg (slot_request none) b = b
handle_message env msg (slot_assigned_ack none) b = b
handle_message env msg (slot_release none) b = b
handle_message env msg unknown_type b = b

-- The reclaim goroutine wakes.
unfoldable pub fire_reclaim : Env → String → Broker → Broker
fire_reclaim env corr b =
    let (t, reverted) = revert_provisional corr b.slots in
    elim reverted [
      | none ↦ record b { slots = t }
      | some _ ↦ assign_from_queue env (record b { slots = t })
    ]

-- The victim still has a slot when the preemption times out: it is released and marked dead.
unfoldable pub expel : String → ℕ → Broker → Broker
expel victim slot b = elim (get_by_agent victim b.slots) [
  | none ↦ b
  | some _ ↦ record b { slots = release (pos slot) b.slots; registry = mark_dead victim b.registry }
]

-- `ForceAssign` at the index of a slot, which does not panic.
abbrev pub forced : ℕ → ℕ → String → ℤ → Broker → Broker
forced now slot agent_id priority b = elim (force_assign now (pos slot) agent_id priority b.slots) [
  | returns t ↦ record b { slots = t }
  | panics ↦ b
]

-- The preemption goroutine wakes.
unfoldable pub fire_preempt : Env → String → ℕ → Message → SlotRequestPayload → Broker → Broker
fire_preempt env victim slot msg p b =
    send_slot_assigned env msg slot
      (forced env.now slot p.agent_id p.priority (expel victim slot b))

unfoldable pub fire : Env → Timer → Broker → Broker
fire env (reclaim corr) b = fire_reclaim env corr b
fire env (preempt victim slot msg p) b = fire_preempt env victim slot msg p b

-- `consumeSnapshotRequests`: a message of its stream, which is a snapshot request or not.
unfoldable pub handle_snapshot_request : Env → Message → Bool → Broker → Broker
handle_snapshot_request env msg is_request b =
    if is_request && (not (str_eq msg.reply_stream "") && env.publish_ok msg.reply_stream)
    then record_publication
        (slot_snapshot msg.reply_stream msg.correlation_id (snapshot env.now b.slots)) b
    else b
