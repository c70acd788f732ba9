-- ===== src/Broker/Offer.antt =====
-- A request for a free slot in internal/broker/broker.go: offer, acknowledgement, reclaim.
use microagent.Prelude.{
  ℕ, ◌≡◌, ◌≢◌, refl, sym, ap, ◌∙◌, true, none, some, List, [], ◌∷◌, ◌++◌, arith, get_elem?,
  get_elem?-set_self, set, inl, inr, String,
}
use microagent.Prelude.Int.{ℤ, pos}
use microagent.Prelude.Text.{eq_iff, eq_refl}
use microagent.Slots.{
  SlotClass, SlotTable, SlotEntry, unassigned, normalize_class, find_unassigned, provisional_entry,
  assigned_entry, assign_provisional, revert_provisional, commit_assignment, is_owned_by,
}
use microagent.Slots.Ops.{apply_all}
use microagent.Slots.WellFormed.{WellFormed}
use microagent.Slots.Find.{FoundAt, find_unassigned_first}
use microagent.Slots.TwoPhase.{
  IsFresh, commit-set, revert-assign_provisional, commit-assign_provisional,
}
use microagent.Broker.{
  Broker, Env, Message, SlotRequest, SlotRequestPayload, SlotAssignedAckPayload, reclaim,
  slot_assigned, best_request, assign_from_queue, send_slot_assigned, offer_slot,
  handle_slot_request, handle_slot_assigned_ack, fire_reclaim,
}

pub assign_provisional_free :
    (now k : ℕ) (a : String) (p : ℤ) (corr : String) (t : SlotTable) (s : SlotEntry)
    → get_elem? t k ≡ some s
    → s.state ≡ unassigned
    → assign_provisional now (pos k) a p corr t
      ≡ (set t k (provisional_entry k s.class a p corr now), true)
unfolding assign_provisional
assign_provisional_free now k a p corr t s g u = rw (g, assign_provisional) (ground arith)

pub undisturbed : (env : Env) → env.between ≡ [] → (t : SlotTable) → apply_all env.between t ≡ t
unfolding apply_all
undisturbed env alone t = rw (alone, apply_all)

fire_reclaim_unmatched :
    (env : Env) (corr : String) (b : Broker)
    → revert_provisional corr b.slots ≡ (b.slots, none)
    → fire_reclaim env corr b ≡ b
unfolding fire_reclaim
fire_reclaim_unmatched env corr b h = ground arith

best_request_nil : (t : SlotTable) (q : List SlotRequest) → q ≡ [] → best_request t 0 none q ≡ none
unfolding best_request
best_request_nil t q e = rw (e, best_request)

pub assign_from_queue_idle :
    (env : Env) (b : Broker) → b.pending_queue ≡ [] → assign_from_queue env b ≡ b
unfolding assign_from_queue
assign_from_queue_idle env b e = rw (best_request_nil b.slots b.pending_queue e, assign_from_queue)

fire_reclaim_idle :
    (env : Env) (corr : String) (b : Broker) (t : SlotTable) (k : ℕ)
    → revert_provisional corr b.slots ≡ (t, some k)
    → b.pending_queue ≡ []
    → (fire_reclaim env corr b).slots ≡ t
unfolding fire_reclaim
fire_reclaim_idle env corr b t k h idle =
    ground (arith, assign_from_queue_idle env (record b { slots = t }) idle)

-- What a request for a free slot finds and does, when no other goroutine comes between.
pub record Offered (env : Env) (msg : Message) (p : SlotRequestPayload) (c : SlotClass)
    (b b' : Broker) : Type 0 where
  pub slot : ℕ
  pub found : FoundAt c 0 b.slots slot
  pub slots :
      assign_provisional env.now (pos slot) p.agent_id p.priority msg.correlation_id b.slots
      ≡ (b'.slots, true)
  pub queue : b'.pending_queue ≡ b.pending_queue
  pub timers : b'.timers ≡ b.timers ++ reclaim msg.correlation_id ∷ []
  pub told : b'.published ≡ slot_assigned msg.reply_stream msg.correlation_id slot ∷ b.published

module _ (env : Env) (msg : Message) (p : SlotRequestPayload) (c : SlotClass) (b : Broker) where
  pub send-told :
      (slot : ℕ) (b' : Broker)
      → msg.reply_stream ≢ ""
      → env.publish_ok msg.reply_stream ≡ true
      → send_slot_assigned env msg slot b' ≡ record b' {
        published = slot_assigned msg.reply_stream msg.correlation_id slot ∷ b'.published;
      }
  unfolding send_slot_assigned
  send-told slot b' r ok = ground (arith, eq_iff msg.reply_stream "")

  pub offer_slot_free :
      (d : SlotClass) (k : ℕ) (s : SlotEntry)
      → get_elem? b.slots k ≡ some s
      → s.state ≡ unassigned
      → env.between ≡ []
      → msg.reply_stream ≢ ""
      → env.publish_ok msg.reply_stream ≡ true
      → offer_slot env msg p d k b ≡ record b {
        slots =
            set b.slots k
              (provisional_entry k s.class p.agent_id p.priority msg.correlation_id env.now);
        timers = b.timers ++ reclaim msg.correlation_id ∷ [];
        published = slot_assigned msg.reply_stream msg.correlation_id k ∷ b.published;
      }
  unfolding offer_slot
  offer_slot_free d k s g u alone named ok =
      rw (undisturbed env alone b.slots, offer_slot)
        (rw
          (assign_provisional_free env.now k p.agent_id p.priority msg.correlation_id b.slots s g u)
          (rw (send-told k _ named ok)))

  offered :
      (k : ℕ) (f : FoundAt c 0 b.slots k)
      → normalize_class p.slot_class ≡ (c, true)
      → env.between ≡ []
      → msg.reply_stream ≢ ""
      → env.publish_ok msg.reply_stream ≡ true
      → Offered env msg p c b (offer_slot env msg p (normalize_class p.slot_class).0 k b)
  offered k f known alone named ok =
      rw (offer_slot_free _ k f.entry at f.is_free.vacant alone named ok) (record {
        slot = k;
        found = f;
        slots =
            assign_provisional_free env.now k p.agent_id p.priority msg.correlation_id b.slots
              f.entry at f.is_free.vacant;
        queue = refl;
        timers = refl;
        told = refl;
      })
    where
      at : get_elem? b.slots k ≡ some f.entry
      at = let q : k ≡ f.index = omega (arith, f.number) in rw q f.at

  -- A request for a known class with a free slot, on a well-formed table, gets the first one
  -- provisionally, is told so on its reply stream, and a reclaim timer runs; the queue stays. (Its
  -- reply stream is named and takes the reply, and no other goroutine comes between.)
  pub handle_slot_request_offers :
      normalize_class p.slot_class ≡ (c, true)
      → WellFormed 0 b.slots
      → env.between ≡ []
      → msg.reply_stream ≢ ""
      → env.publish_ok msg.reply_stream ≡ true
      → find_unassigned c b.slots ≢ none
      → Offered env msg p c b (handle_slot_request env msg p b)
  unfolding handle_slot_request
  handle_slot_request_offers known w alone named ok free =
      elim (find_unassigned_first c b.slots w) [
        | inl (e, _) ↦ absurd (free e)
        | inr (k, e, f) ↦
            rw (known, handle_slot_request)
              (rw (e, handle_slot_request) (offered k f known alone named ok))
      ]

-- An offered request under a fresh correlation that is acknowledged: the offered slot, at its place,
-- is assigned to the agent at its priority in the requested class, and is the agent's by the
-- broker's own test; no other entry and no waiting request changes; and the reclaim timer of the
-- offer changes nothing when it fires on this.
pub acknowledged_request :
    (env env' : Env) (msg : Message) (p : SlotRequestPayload) (c : SlotClass) (b b' : Broker)
    (ack : SlotAssignedAckPayload)
    → IsFresh msg.correlation_id b.slots
    → (o : Offered env msg p c b b')
    → let b'' = handle_slot_assigned_ack msg ack b' in
      (b''.slots ≡ set b.slots o.slot (assigned_entry o.slot c p.agent_id p.priority env.now))
      × (is_owned_by (pos o.slot) p.agent_id b''.slots ≡ true)
      × (b''.pending_queue ≡ b.pending_queue)
      × (fire_reclaim env' msg.correlation_id b'' ≡ b'')
unfolding handle_slot_assigned_ack is_owned_by
acknowledged_request env env' msg p c b b' ack fresh o =
    let now = env.now in
    let corr = msg.correlation_id in
    let (_, _, _, _, r) =
      commit-assign_provisional now (pos o.slot) p.agent_id p.priority corr b.slots b'.slots fresh
        o.slots in
    let n : o.slot ≡ o.found.index = omega (arith, o.found.number) in
    let at : get_elem? b.slots o.slot ≡ some o.found.entry = rw n o.found.at in
    let given : b'.slots
        ≡ set b.slots o.slot (provisional_entry o.slot c p.agent_id p.priority corr now) =
      rw (sym o.found.is_free.of_class) (
        ap (λ x. x.0)
          (sym o.slots
            ∙ assign_provisional_free now o.slot p.agent_id p.priority corr b.slots o.found.entry at
                o.found.is_free.vacant)) in
    let done : (commit_assignment corr b'.slots).0
        ≡ set b.slots o.slot (assigned_entry o.slot c p.agent_id p.priority now) =
      ap (λ t. (commit_assignment corr t).0) given
      ∙ ap (λ x. x.0)
          (commit-set b.slots o.slot o.slot now c p.agent_id p.priority corr fresh at) in
    let held =
      get_elem?-set_self b.slots o.slot (assigned_entry o.slot c p.agent_id p.priority now) at in
    (
      done,
      rw (done, held, is_owned_by) (rw (eq_refl p.agent_id) refl),
      o.queue,
      fire_reclaim_unmatched env' corr _ r,
    )

-- An offered request under a fresh correlation that is not acknowledged: with nobody waiting and a
-- well-formed table, the reclaim timer puts the slot table back as it was before the request.
pub unacknowledged_request :
    (env env' : Env) (msg : Message) (p : SlotRequestPayload) (c : SlotClass) (b b' : Broker)
    → WellFormed 0 b.slots
    → IsFresh msg.correlation_id b.slots
    → b.pending_queue ≡ []
    → Offered env msg p c b b'
    → (fire_reclaim env' msg.correlation_id b').slots ≡ b.slots
unacknowledged_request env env' msg p c b b' w fresh idle o =
    let (k, i, r) =
      revert-assign_provisional env.now (pos o.slot) p.agent_id p.priority msg.correlation_id
        b.slots b'.slots w fresh o.slots in
    fire_reclaim_idle env' msg.correlation_id b' b.slots k r (o.queue ∙ idle)
