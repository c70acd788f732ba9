-- ===== src/Broker/Invariant.antt =====
-- The handlers and timers of internal/broker/broker.go as calls of the slot table.
use microagent.Prelude.{
  ℕ, String, ◌≡◌, refl, Option, none, some, List, [], ◌∷◌, Bool-cases, Option-cases, inl, inr,
  arith,
}
use microagent.Prelude.Int.{ℤ, pos, negsuc, eqb_ℤ}
use microagent.Slots.{
  SlotTable, SlotClass, Victim, Call, returns, panics, assign_provisional, revert_provisional,
  force_assign, release_by_agent, find_unassigned, normalize_class, get_by_agent,
}
use microagent.Slots.Ops.{
  Op, provision, commit, revert, force, free, free_agent, apply, apply_all, after_force,
}
use microagent.Broker.{
  Broker, Env, Message, SlotRequest, SlotRequestPayload, SlotReleasePayload, Incoming, slot_request,
  slot_assigned_ack, slot_release, unknown_type, Timer, reclaim, preempt, Choice, enqueue,
  best_request, confirm_queued, take_choice, assign_from_queue, send_slot_assigned, preempt_agent,
  offer_slot, preempt_or_enqueue, handle_slot_request, handle_slot_assigned_ack, is_nil,
  free_agent_slots, handle_slot_release, handle_message, fire_reclaim, expel, forced, fire_preempt,
  fire,
}

-- For any property of tables that every call of the table keeps.
module _ (P : SlotTable → Type 0) (keep : (o : Op) (t : SlotTable) → P t → P (apply o t)) where
  all-keeps : (os : List Op) (t : SlotTable) → P t → P (apply_all os t)
  unfolding apply_all
  all-keeps [] t h = h
  all-keeps (o ∷ os) t h = all-keeps os (apply o t) (keep o t h)

  revert-keeps : (corr : String) (t : SlotTable) → P t → P (revert_provisional corr t).0
  unfolding apply
  revert-keeps corr t h = keep (revert corr) t h

  provision-keeps :
      (now : ℕ) (i : ℤ) (a : String) (p : ℤ) (corr : String) (t : SlotTable)
      → P t
      → P (assign_provisional now i a p corr t).0
  unfolding apply
  provision-keeps now i a p corr t h = keep (provision now i a p corr) t h

  confirm_queued-keeps :
      (env : Env) (slot : ℕ) (r : SlotRequest) (b : Broker)
      → P b.slots
      → P (confirm_queued env slot r b).slots
  unfolding confirm_queued
  confirm_queued-keeps env slot r b h = ground (arith, revert-keeps r.correlation_id b.slots h)

  take_choice-keeps :
      (env : Env) (c : Choice) (b : Broker) → P b.slots → P (take_choice env c b).slots
  unfolding take_choice
  take_choice-keeps env c b h =
      elim (Bool-cases
        (assign_provisional env.now (pos c.slot) r.agent_id r.priority r.correlation_id seen).1) [
          | inl done ↦ rw (done, take_choice) (confirm_queued-keeps env c.slot r _ taken)
          | inr lost ↦ rw (lost, take_choice) taken
        ]
    where
      r : SlotRequest
      r = c.request

      seen : SlotTable
      seen = apply_all env.between b.slots

      taken :
          P (assign_provisional env.now (pos c.slot) r.agent_id r.priority r.correlation_id seen).0
      taken =
          provision-keeps env.now (pos c.slot) r.agent_id r.priority r.correlation_id seen
            (all-keeps env.between b.slots h)

  assign_from_queue-keeps : (env : Env) (b : Broker) → P b.slots → P (assign_from_queue env b).slots
  unfolding assign_from_queue
  assign_from_queue-keeps env b h =
      elim (Option-cases (best_request b.slots 0 none b.pending_queue)) [
        | inl e ↦ rw (e, assign_from_queue) h
        | inr (c, e) ↦ rw (e, assign_from_queue) (take_choice-keeps env c b h)
      ]

  -- A revert that frees a slot, and the queue served if it did.
  revert_and_serve :
      (env : Env) (corr : String) (b : Broker) → P b.slots → P (fire_reclaim env corr b).slots
  unfolding fire_reclaim
  revert_and_serve env corr b h = elim (Option-cases (revert_provisional corr b.slots).1) [
    | inl e ↦ rw (e, fire_reclaim) (revert-keeps corr b.slots h)
    | inr (_, e) ↦
        rw (e, fire_reclaim) (assign_from_queue-keeps env _ (revert-keeps corr b.slots h))
  ]

  send_slot_assigned-keeps :
      (env : Env) (msg : Message) (slot : ℕ) (b : Broker)
      → P b.slots
      → P (send_slot_assigned env msg slot b).slots
  unfolding send_slot_assigned fire_reclaim
  send_slot_assigned-keeps env msg slot b h =
      ground (arith, h, revert_and_serve env msg.correlation_id b h)

  offer_slot-keeps :
      (env : Env) (msg : Message) (p : SlotRequestPayload) (c : SlotClass) (slot : ℕ) (b : Broker)
      → P b.slots
      → P (offer_slot env msg p c slot b).slots
  unfolding offer_slot enqueue
  offer_slot-keeps env msg p c slot b h =
      elim (Bool-cases
        (assign_provisional env.now (pos slot) p.agent_id p.priority msg.correlation_id seen).1) [
          | inl done ↦ rw (done, offer_slot) (send_slot_assigned-keeps env msg slot _ taken)
          | inr lost ↦ rw (lost, offer_slot) taken
        ]
    where
      seen : SlotTable
      seen = apply_all env.between b.slots

      taken :
          P (assign_provisional env.now (pos slot) p.agent_id p.priority msg.correlation_id seen).0
      taken =
          provision-keeps env.now (pos slot) p.agent_id p.priority msg.correlation_id seen
            (all-keeps env.between b.slots h)

  preempt_or_enqueue-slots :
      (msg : Message) (p : SlotRequestPayload) (c : SlotClass) (v : Option Victim) (b : Broker)
      → (preempt_or_enqueue msg p c v b).slots ≡ b.slots
  unfolding preempt_or_enqueue enqueue preempt_agent
  preempt_or_enqueue-slots msg p c v b = ground arith

  handle_slot_request-keeps :
      (env : Env) (msg : Message) (p : SlotRequestPayload) (b : Broker)
      → P b.slots
      → P (handle_slot_request env msg p b).slots
  unfolding handle_slot_request
  handle_slot_request-keeps env msg p b h = elim (Bool-cases (normalize_class p.slot_class).1) [
    | inr unknown ↦ rw (unknown, handle_slot_request) h
    | inl known ↦ elim (Option-cases (find_unassigned (normalize_class p.slot_class).0 b.slots)) [
      | inl e ↦
          rw (known, handle_slot_request)
            (rw (e, handle_slot_request) (rw (preempt_or_enqueue-slots msg p _ _ b) h))
      | inr (slot, e) ↦
          rw (known, handle_slot_request)
            (rw (e, handle_slot_request) (offer_slot-keeps env msg p _ slot b h))
    ]
  ]

  pub free_agent_slots-keeps :
      (env : Env) (a : String) (b : Broker) → P b.slots → P (free_agent_slots env a b).slots
  unfolding free_agent_slots
  free_agent_slots-keeps env a b h = elim (Bool-cases (is_nil (release_by_agent a b.slots).1)) [
    | inl e ↦ rw (e, free_agent_slots) freed
    | inr e ↦ rw (e, free_agent_slots) (assign_from_queue-keeps env _ freed)
  ]
    where
      freed : P (release_by_agent a b.slots).0
      freed = unfold apply in keep (free_agent a) b.slots h

  handle_slot_release-keeps :
      (env : Env) (p : SlotReleasePayload) (b : Broker)
      → P b.slots
      → P (handle_slot_release env p b).slots
  unfolding handle_slot_release
  handle_slot_release-keeps env p b h = elim (Bool-cases (eqb_ℤ p.slot_id (negsuc 0))) [
    | inl e ↦ rw e (free_agent_slots-keeps env p.agent_id b h)
    | inr e ↦ rw e (assign_from_queue-keeps env _ (unfold apply in keep (free p.slot_id) b.slots h))
  ]

  pub handle_message-keeps :
      (env : Env) (msg : Message) (i : Incoming) (b : Broker)
      → P b.slots
      → P (handle_message env msg i b).slots
  unfolding handle_message handle_slot_assigned_ack apply
  handle_message-keeps env msg (slot_request (some p)) b h = handle_slot_request-keeps env msg p b h
  handle_message-keeps env msg (slot_assigned_ack (some p)) b h =
      keep (commit msg.correlation_id) b.slots h
  handle_message-keeps env msg (slot_release (some p)) b h = handle_slot_release-keeps env p b h
  handle_message-keeps env msg (slot_request none) b h = h
  handle_message-keeps env msg (slot_assigned_ack none) b h = h
  handle_message-keeps env msg (slot_release none) b h = h
  handle_message-keeps env msg unknown_type b h = h

  expel-keeps :
      (victim : String) (slot : ℕ) (b : Broker) → P b.slots → P (expel victim slot b).slots
  unfolding expel
  expel-keeps victim slot b h = elim (Option-cases (get_by_agent victim b.slots)) [
    | inl e ↦ rw (e, expel) h
    | inr (_, e) ↦ rw (e, expel) (unfold apply in keep (free (pos slot)) b.slots h)
  ]

  forced-keeps :
      (now slot : ℕ) (a : String) (p : ℤ) (b : Broker) → P b.slots → P (forced now slot a p b).slots
  unfolding apply
  forced-keeps now slot a p b h = go (force_assign now (pos slot) a p b.slots) refl
    where
      go :
          (r : Call SlotTable)
          → force_assign now (pos slot) a p b.slots ≡ r
          → P (forced now slot a p b).slots
      go (returns t) e =
          rw (e, forced) (rw (e, after_force) at (keep (force now (pos slot) a p) b.slots h))
      go panics e = rw (e, forced) h

  pub fire-keeps : (env : Env) (w : Timer) (b : Broker) → P b.slots → P (fire env w b).slots
  unfolding fire fire_preempt
  fire-keeps env (reclaim corr) b h = revert_and_serve env corr b h
  fire-keeps env (preempt victim slot msg p) b h =
      send_slot_assigned-keeps env msg slot _
        (forced-keeps env.now slot p.agent_id p.priority _ (expel-keeps victim slot b h))
