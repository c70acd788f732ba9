-- ===== src/Broker/Waiting.antt =====
-- The queue of internal/broker/broker.go when slots come free.
use microagent.Prelude.{
  ℕ, String, ◌≡◌, ◌≢◌, refl, sym, ap, subst, if◌then◌else◌, ◌⊎◌, inl, inr, true, some, List, [],
  ◌∷◌, ◌++◌, arith, map, All, All-get, get_elem?, set, erase_idx, Bool-cases,
}
use microagent.Prelude.Int.{negsuc, pos, eqb_ℤ, eqb_ℤ_iff}
use microagent.Prelude.Text.{str_eq, eq_iff}
use microagent.Slots.{SlotTable, provisional_entry, assign_provisional, release}
use microagent.Slots.WellFormed.{WellFormed, release-WellFormed, release_by_agent-WellFormed}
use microagent.Slots.Release.{evict, held_by, release_by_agent-evict}
use microagent.Broker.{
  Env, SlotRequest, SlotReleasePayload, Broker, Choice, reclaim, slot_assigned, confirm_queued,
  take_choice, assign_from_queue, is_nil, free_agent_slots, handle_slot_release, handle_dead_agent,
}
use microagent.Broker.Queue.{AnyFree, BestRequest, best_request_min}
use microagent.Broker.Offer.{assign_provisional_free, undisturbed}

-- A request whose reply stream is named and takes the reply.
abbrev pub CanBeTold : Env → SlotRequest → Type 0
CanBeTold env r = (r.reply_stream ≢ "") × (env.publish_ok r.reply_stream ≡ true)

-- The broker after a request from its queue got its slot provisionally and was told so.
abbrev pub served : Env → SlotTable → Choice → Broker → Broker
served env t c b =
    let r = c.request in
    record b {
      slots =
          set t c.slot
            (provisional_entry c.slot r.class r.agent_id r.priority r.correlation_id env.now);
      pending_queue = erase_idx b.pending_queue c.index;
      timers = b.timers ++ (reclaim r.correlation_id ∷ []);
      published = slot_assigned r.reply_stream r.correlation_id c.slot ∷ b.published;
    }

-- After slots came free and left the table `t`: no waiting request has a free slot of its class and
-- the queue stays, or the best of them is served.
abbrev pub ServedOne : Env → SlotTable → Broker → Broker → Type 0
ServedOne env t b b' =
    (All (λ r. ¬ AnyFree r.class t) b.pending_queue × (b' ≡ record b { slots = t }))
    ⊎ ((c : Choice) × BestRequest t b.pending_queue c × (b' ≡ served env t c b))

-- After an agent gave up its slots: it had none and nothing changes, or they are blank, and one
-- waiting request may be served.
abbrev pub Freed : Env → String → Broker → Broker → Type 0
Freed env a b b' =
    ((held_by a b.slots ≡ []) × (b' ≡ b))
    ⊎ ((held_by a b.slots ≢ []) × ServedOne env (map (evict a) b.slots) b b')

map-evict_none : (a : String) (t : SlotTable) → held_by a t ≡ [] → map (evict a) t ≡ t
map-evict_none a [] h = refl
map-evict_none a (s ∷ t) h = elim (Bool-cases (str_eq s.agent_id a)) [
  | inl e ↦ absurd (ground arith)
  | inr e ↦ rw e (ap (s ∷◌) (map-evict_none a t (ground arith)))
]

module _ (env : Env) (alone : env.between ≡ []) where
  confirm_queued-told :
      (slot : ℕ) (r : SlotRequest) (b : Broker)
      → CanBeTold env r
      → confirm_queued env slot r b ≡ record b {
        timers = b.timers ++ (reclaim r.correlation_id ∷ []);
        published = slot_assigned r.reply_stream r.correlation_id slot ∷ b.published;
      }
  unfolding confirm_queued
  confirm_queued-told slot r b told = ground (arith, told.0, told.1, eq_iff r.reply_stream "")

  take_choice-served :
      (c : Choice) (b : Broker)
      → BestRequest b.slots b.pending_queue c
      → CanBeTold env c.request
      → take_choice env c b ≡ served env b.slots c b
  unfolding take_choice
  take_choice-served c b best told =
      let r = c.request in
      let n : c.slot ≡ best.slot.index = omega (arith, best.slot.number) in
      let at : get_elem? b.slots c.slot ≡ some best.slot.entry = rw n best.slot.at in
      let given : assign_provisional env.now (pos c.slot) r.agent_id r.priority r.correlation_id
            b.slots
          ≡ (
            set b.slots c.slot
                (provisional_entry c.slot r.class r.agent_id r.priority r.correlation_id env.now),
            true,
          ) =
        rw (sym best.slot.is_free.of_class) (
          assign_provisional_free env.now c.slot r.agent_id r.priority r.correlation_id b.slots
            best.slot.entry at best.slot.is_free.vacant) in
      rw (undisturbed env alone b.slots, take_choice)
        (rw (given, take_choice) (confirm_queued-told c.slot r _ told))

  assign_from_queue_one :
      (b : Broker)
      → WellFormed 0 b.slots
      → All (CanBeTold env) b.pending_queue
      → ServedOne env b.slots b (assign_from_queue env b)
  unfolding assign_from_queue
  assign_from_queue_one b w told = elim (best_request_min b.slots w b.pending_queue) [
    | inl (e, all) ↦ inl (all, rw (e, assign_from_queue) refl)
    | inr (c, e, best) ↦ inr (
      c,
      best,
      rw (e, assign_from_queue)
          (take_choice-served c b best
            (All-get (CanBeTold env) b.pending_queue c.index c.request told best.at)),
    )
  ]

  free_agent_slots_one :
      (a : String) (b : Broker)
      → WellFormed 0 b.slots
      → All (CanBeTold env) b.pending_queue
      → Freed env a b (free_agent_slots env a b)
  unfolding free_agent_slots
  free_agent_slots_one a b w told =
      rw (release_by_agent-evict a b.slots w, free_agent_slots) (either (held_by a b.slots) refl)
    where
      blanked : WellFormed 0 (map (evict a) b.slots)
      blanked =
          subst (WellFormed 0) (ap (λ x. x.0) (release_by_agent-evict a b.slots w))
            (release_by_agent-WellFormed a b.slots w)

      either :
          (ns : List ℕ)
          → held_by a b.slots ≡ ns
          → Freed env a b (
              if is_nil ns
              then record b { slots = map (evict a) b.slots }
              else assign_from_queue env (record b { slots = map (evict a) b.slots }))
      either [] e = inl (e, ap (λ t. record b { slots = t }) (map-evict_none a b.slots e))
      either (n ∷ ns) e = inr (
        λ q. absurd (cc),
        assign_from_queue_one (record b { slots = map (evict a) b.slots }) blanked told,
      )

-- The slots that a release gives back, one by its number, or all of its agent by -1.
abbrev pub Released : Env → SlotReleasePayload → Broker → Broker → Type 0
Released env p b b' =
    ((p.slot_id ≡ negsuc 0) × Freed env p.agent_id b b')
    ⊎ ((p.slot_id ≢ negsuc 0) × ServedOne env (release p.slot_id b.slots) b b')

-- What becomes of the queue when slots come free by a release, of one slot or of all slots of an
-- agent, or by the death of an agent, on a well-formed table, when no other goroutine comes between
-- and every waiting request can be told. Either no waiting request has a free slot of its class, and
-- the queue stays; or the best request in the sense of `best_request_min`, and no other however many
-- slots came free, leaves the queue, gets the first free slot of its class provisionally, and is
-- told so, with a reclaim timer. When the agent had no slot, nothing changes.
pub handle_slot_release_one :
    (env : Env) (p : SlotReleasePayload) (agent_id : String) (b : Broker)
    → WellFormed 0 b.slots
    → env.between ≡ []
    → All (CanBeTold env) b.pending_queue
    → Released env p b (handle_slot_release env p b)
      × Freed env agent_id b (handle_dead_agent env agent_id b)
unfolding handle_slot_release handle_dead_agent
handle_slot_release_one env p agent_id b w alone told = (
  elim (Bool-cases (eqb_ℤ p.slot_id (negsuc 0))) [
    | inl e ↦ rw e (
        inl (
          (eqb_ℤ_iff p.slot_id (negsuc 0)).0 e,
          free_agent_slots_one env alone p.agent_id b w told,
        ))
    | inr e ↦ rw e (
        inr (
          λ q. absurd (ground (arith, (eqb_ℤ_iff p.slot_id (negsuc 0)).1 q)),
          assign_from_queue_one env alone (record b { slots = release p.slot_id b.slots })
              (release-WellFormed p.slot_id b.slots w) told,
        ))
  ],
  free_agent_slots_one env alone agent_id b w told,
)
