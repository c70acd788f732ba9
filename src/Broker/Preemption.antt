-- ===== src/Broker/Preemption.antt =====
-- The timeout of a preemption in internal/broker/broker.go.
use microagent.Prelude.{
  ℕ, ◌≡◌, ◌≢◌, refl, ◌∙◌, true, false, none, some, ◌∷◌, arith, get_elem?, get_elem?-set_self, set,
  Option-cases, inl, inr, String,
}
use microagent.Prelude.Int.{ℤ, pos}
use microagent.Prelude.Text.{eq_iff, eq_refl}
use microagent.Slots.{
  SlotClass, SlotTable, SlotEntry, assigned_entry, force_assign, get_by_agent, is_owned_by,
  owned_by,
}
use microagent.Broker.{
  Broker, Env, Message, SlotRequestPayload, slot_assigned, expel, forced, fire_preempt,
}
use microagent.Broker.Offer.{send-told}

force_assign_at :
    (now k : ℕ) (a : String) (p : ℤ) (b : Broker) (s : SlotEntry)
    → get_elem? b.slots k ≡ some s
    → forced now k a p b ≡ record b { slots = set b.slots k (assigned_entry k s.class a p now) }
unfolding force_assign
force_assign_at now k a p b s g = ground arith

owner_of_set :
    (t : SlotTable) (k : ℕ) (e : SlotEntry) (a : String) {s : SlotEntry}
    → get_elem? t k ≡ some s
    → is_owned_by (pos k) a (set t k e) ≡ owned_by a e
unfolding is_owned_by
owner_of_set t k e a g = rw (get_elem?-set_self t k e g, is_owned_by)

owned_in_range :
    (k : ℕ) (a : String) (t : SlotTable) → is_owned_by (pos k) a t ≡ true → get_elem? t k ≢ none
unfolding is_owned_by
owned_in_range k a t h = ground arith

-- A preemption whose victim holds no slot any more when the timer fires still takes the slot that
-- was the victim's: another agent that holds it by then loses it to the requester, and only the
-- requester is told. (The requester's reply stream is named and takes the reply.)
pub fire_preempt_overwrites :
    (env : Env) (victim holder : String) (k : ℕ) (msg : Message) (p : SlotRequestPayload)
    (b : Broker)
    → get_by_agent victim b.slots ≡ none
    → is_owned_by (pos k) holder b.slots ≡ true
    → holder ≢ p.agent_id
    → msg.reply_stream ≢ ""
    → env.publish_ok msg.reply_stream ≡ true
    → let b' = fire_preempt env victim k msg p b in
      (is_owned_by (pos k) holder b'.slots ≡ false)
      × (is_owned_by (pos k) p.agent_id b'.slots ≡ true)
      × (b'.published ≡ slot_assigned msg.reply_stream msg.correlation_id k ∷ b.published)
      × (b'.pending_queue ≡ b.pending_queue)
unfolding fire_preempt expel
fire_preempt_overwrites env victim holder k msg p b gone held other named ok =
    elim (Option-cases (get_elem? b.slots k)) [
      | inl e ↦ absurd (owned_in_range k holder b.slots held e)
      | inr (s, g) ↦
          rw (gone, expel)
            (rw (force_assign_at env.now k p.agent_id p.priority b s g) (
              rw (send-told env msg p SlotClass.unset b k _ named ok) (
                owner_of_set b.slots k _ holder g ∙ ground (arith, eq_iff p.agent_id holder),
                owner_of_set b.slots k _ p.agent_id g ∙ eq_refl p.agent_id,
                refl,
                refl,
              )))
    ]
