-- ===== src/Agent/Acquire.antt =====
-- internal/agent/runtime.go: what an acquisition and a release send to the broker.
use microagent.Prelude.{
  String, Bool, true, false, not, ◌&&◌, ◌≡◌, refl, sym, ap, subst, ◌∙◌, Option, none, some, [], ◌∷◌,
  ◌++◌, append_assoc, append-nil, if◌then◌else◌,
}
use microagent.Prelude.Int.{ℤ, eqb_ℤ}
use microagent.Agent.{
  SlotReply, timed_out, undecodable, slot_assigned, Ask, Sent, Runtime, no_slot, send,
  release_message, defensive_release, request_message, ack_message, on_slot_reply, request_slot,
  release_slot,
}

-- The releases that go out.
abbrev pub released : Ask → String → String → ℤ → Sent
released ask corr agent_id slot =
    if ask.release_made && ask.release_published
    then release_message corr agent_id slot ∷ []
    else []

pub data Acquisition (ask : Ask) (corr : String) (r : Runtime) : Option ℤ → Runtime → Type 0 where
  -- The request did not go out, and nothing did.
  not_asked : Acquisition ask corr r none r
  -- It went out in vain, and was followed by a release of all slots.
  in_vain :
      {after : Runtime}
      → after ≡ record r {
        sent = r.sent ++ (request_message ask r ∷ released ask corr r.agent_id no_slot);
      }
      → Acquisition ask corr r none after
  -- The slot of the reply was acknowledged.
  acquired :
      {slot : ℤ}
      → ask.reply ≡ slot_assigned slot
      → Acquisition ask corr r (some slot) (record r {
        slot_id = slot;
        preempted = false;
        sent = (r.sent ++ (request_message ask r ∷ [])) ++ (ack_message ask slot r ∷ []);
      })

defensive_release_lem :
    (ask : Ask) (corr : String) (r : Runtime)
    → defensive_release ask corr r
      ≡ record r { sent = r.sent ++ released ask corr r.agent_id no_slot }
unfolding defensive_release
defensive_release_lem ask corr r = either (ask.release_made && ask.release_published)
  where
    either :
        (b : Bool)
        → (if b then send (release_message corr r.agent_id no_slot) r else r) ≡ record r {
          sent = r.sent ++ (if b then release_message corr r.agent_id no_slot ∷ [] else []);
        }
    either true = refl
    either false = ap (λ s. record r { sent = s }) (sym (append-nil r.sent))

in_vain_lem :
    (ask : Ask) (corr : String) (r : Runtime)
    → Acquisition ask corr r none (defensive_release ask corr (send (request_message ask r) r))
in_vain_lem ask corr r = in_vain (
    defensive_release_lem ask corr (send (request_message ask r) r)
    ∙ ap (λ s. record r { sent = s })
        (append_assoc r.sent (request_message ask r ∷ []) (released ask corr r.agent_id no_slot)))

-- Two tests that must both pass.
guarded :
    {A : Type 0} (P : A → Type 0) (first second : Bool) (fails passes : A)
    → P fails
    → P passes
    → P (if not first then fails else if not second then fails else passes)
guarded P false second fails passes f p = f
guarded P true false fails passes f p = f
guarded P true true fails passes f p = p

on_slot_reply-Acquisition :
    (ask : Ask) (corr : String) (reply : SlotReply) (r : Runtime)
    → ask.reply ≡ reply
    → let (o, after) = on_slot_reply ask corr reply (send (request_message ask r) r) in
      Acquisition ask corr r o after
unfolding on_slot_reply
on_slot_reply-Acquisition ask corr timed_out r e = in_vain_lem ask corr r
on_slot_reply-Acquisition ask corr undecodable r e = in_vain_lem ask corr r
on_slot_reply-Acquisition ask corr (slot_assigned slot) r e =
    guarded (λ (a : Option ℤ × Runtime). Acquisition ask corr r a.0 a.1) ask.ack_made
      ask.ack_published _ _ (in_vain_lem ask corr r) (acquired e)

-- An acquisition either fails before its request goes out, and then nothing is sent or changed; or
-- it fails later, whether the reply does not come, does not decode, or the acknowledgement does not
-- go out, and then the release of all slots follows the request (when it can be published); or it
-- takes the slot of the reply, acknowledges it, and forgets earlier preemptions.
pub request_slot-Acquisition :
    (ask : Ask) (corr : String) (r : Runtime)
    → Acquisition ask corr r (request_slot ask corr r).0 (request_slot ask corr r).1
unfolding request_slot
request_slot-Acquisition ask corr r =
    guarded (λ (a : Option ℤ × Runtime). Acquisition ask corr r a.0 a.1) ask.request_made
      ask.request_published _ _ not_asked (on_slot_reply-Acquisition ask corr ask.reply r refl)

-- A held slot is released once: the first release gives up the slot and sends its release, when
-- that can be published, and a second one sends nothing.
pub release_slot_once :
    (ask again : Ask) (corr next : String) (r : Runtime)
    → eqb_ℤ r.slot_id no_slot ≡ false
    → let after = (release_slot ask corr r).1 in
      (after
        ≡ record r { slot_id = no_slot; sent = r.sent ++ released ask corr r.agent_id r.slot_id })
      × (release_slot again next after ≡ (true, after))
unfolding release_slot
release_slot_once ask again corr next r h =
    let e = either (eqb_ℤ r.slot_id no_slot) ask.release_made ask.release_published h in
    (e, subst (λ (x : Runtime). release_slot again next x ≡ (true, x)) (sym e) refl)
  where
    either :
        (idle made published : Bool)
        → idle ≡ false
        → let freed : Runtime = record r { slot_id = no_slot } in
          let m = release_message corr r.agent_id r.slot_id in
          let success : Bool × Runtime = (true, send m freed) in
          let failure : Bool × Runtime = (false, freed) in
          let nothing : Bool × Runtime = (true, freed) in
          (if idle
            then nothing
            else if not made
            then failure
            else if not published
            then failure
            else success).1
          ≡ record r {
            slot_id = no_slot;
            sent = r.sent ++ (if made && published then m ∷ [] else []);
          }
    either true made published i = absurd (cc)
    either false false published i =
        ap (λ s. record r { slot_id = no_slot; sent = s }) (sym (append-nil r.sent))
    either false true false i =
        ap (λ s. record r { slot_id = no_slot; sent = s }) (sym (append-nil r.sent))
    either false true true i = refl
