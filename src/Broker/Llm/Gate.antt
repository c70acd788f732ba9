-- ===== src/Broker/Llm/Gate.antt =====
-- Which requests pass the gate of internal/broker/broker.go, and what the requester hears.
use microagent.Prelude.{
  ℕ, String, ◌≡◌, ◌≢◌, refl, true, false, some, List, [], ◌∷◌, ◌++◌, map, arith, get_elem?, ◌⊎◌,
  inl, inr, ◌↔◌, Option-cases,
}
use microagent.Prelude.Int.{ℤ, pos, negsuc}
use microagent.Prelude.Text.{eq_iff}
use microagent.Slots.{
  SlotTable, SlotEntry, SlotClass, unassigned, normalize_class, class_of, class_eq, is_owned_by,
}
use microagent.Slots.Find.{class_eq→eq, class_eq_refl}
use microagent.Broker.{Message}
use microagent.Broker.Llm.{LlmRequestPayload, ProxyEvent, done_reply, reply_of, handle_llm_request}

-- The slot is there, of the class, held (provisionally or not) and the sender's.
pub record Holds (t : SlotTable) (i : ℤ) (c : SlotClass) (a : String) (s : SlotEntry) : Type 0 where
  pub number : (k : ℕ) × (i ≡ pos k) × (get_elem? t k ≡ some s)
  pub of_class : s.class ≡ c
  pub held : s.state ≢ unassigned
  pub owner : s.agent_id ≡ a

Holds-sound :
    (t : SlotTable) (i : ℤ) (c : SlotClass) (a : String)
    → is_owned_by i a t ≡ true
    → class_eq (class_of i t) c ≡ true
    → (s : SlotEntry) × Holds t i c a s
unfolding is_owned_by class_of
Holds-sound t (negsuc i) c a h k = absurd (cc)
Holds-sound t (pos i) c a h k = elim (Option-cases (get_elem? t i)) [
  | inl e ↦ absurd (ground arith)
  | inr (s, e) ↦ (
    s,
    record {
      number = (i, refl, e);
      of_class = ground (arith, class_eq→eq s.class c);
      held = λ u. ground arith;
      owner = ground (arith, eq_iff s.agent_id a);
    },
  )
]

Holds-complete :
    (t : SlotTable) (i : ℤ) (c : SlotClass) (a : String) (s : SlotEntry)
    → Holds t i c a s
    → (is_owned_by i a t ≡ true) × (class_eq (class_of i t) c ≡ true)
unfolding is_owned_by class_of
Holds-complete t i c a s h = ground (
  arith,
  h.number.1,
  h.number.2,
  h.of_class,
  h.held,
  h.owner,
  class_eq_refl c,
  eq_iff s.agent_id a,
)

passes :
    (t : SlotTable) (msg : Message) (p : LlmRequestPayload) (events : List ProxyEvent)
    → ((handle_llm_request t msg (some p) events).proxied ≡ true) ↔ (
        ((normalize_class p.slot_class).1 ≡ true)
        × (class_eq (class_of p.slot_id t) (normalize_class p.slot_class).0 ≡ true)
        × (is_owned_by p.slot_id msg.source t ≡ true))
unfolding handle_llm_request
passes t msg p events = ground arith

-- An LLM request that decodes is proxied exactly when its class is known and its slot is of that
-- class and held, provisionally or not, by the message's sender.
pub handle_llm_request_proxied :
    (t : SlotTable) (msg : Message) (p : LlmRequestPayload) (events : List ProxyEvent)
    → ((handle_llm_request t msg (some p) events).proxied ≡ true) ↔ (
        (c : SlotClass) × (s : SlotEntry) × (normalize_class p.slot_class ≡ (c, true))
        × Holds t p.slot_id c msg.source s)
handle_llm_request_proxied t msg p events = (
  λ h.
      let (known, same, owned) = (passes t msg p events).0 h in
      let (s, held) = Holds-sound t p.slot_id _ msg.source owned same in
      ((normalize_class p.slot_class).0, s, ground arith, held),
  λ (c, s, known, held).
      let (owned, same) = Holds-complete t p.slot_id c msg.source s held in
      (passes t msg p events).1 (ground arith, ground arith, owned),
)

-- Whoever names a reply stream hears the end of its request exactly once and last: after the tokens
-- and tool calls in the order they came if the request was proxied, and alone if it was refused.
pub handle_llm_request_replies :
    (t : SlotTable) (msg : Message) (p : LlmRequestPayload) (events : List ProxyEvent)
    → msg.reply_stream ≢ ""
    → let r = handle_llm_request t msg (some p) events in
      ((r.proxied ≡ true) × (r.replies ≡ map reply_of events ++ done_reply ∷ []))
      ⊎ ((r.proxied ≡ false) × (r.replies ≡ done_reply ∷ []))
unfolding handle_llm_request
handle_llm_request_replies t msg p events named = ground (arith, eq_iff msg.reply_stream "")
