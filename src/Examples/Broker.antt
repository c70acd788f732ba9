-- ===== src/Examples/Broker.antt =====
-- internal/broker/broker.go on a small broker.
use microagent.Prelude.{
  String, ◌≡◌, ◌≢◌, refl, true, false, none, some, List, [], ◌∷◌, arith, set, All, ◌⊎◌,
}
use microagent.Prelude.Int.{ℤ, pos}
use microagent.Prelude.Text.{eq_iff}
use microagent.Slots.{
  agent, hindsight, blank, assigned_entry, normalize_class, find_unassigned, is_owned_by,
  get_by_agent,
}
use microagent.Slots.WellFormed.{WellFormed}
use microagent.Slots.Classes.{classes}
use microagent.Slots.TwoPhase.{IsFresh}
use microagent.Broker.{
  Broker, Env, Message, SlotRequest, SlotRequestPayload, SlotAssignedAckPayload, Choice,
  slot_assigned, slot_request, handle_slot_request, handle_slot_assigned_ack, handle_message,
  best_request, fire_reclaim, fire_preempt,
}
use microagent.Broker.Queue.{BestRequest, AnyFree, best_request_min}
use microagent.Broker.Offer.{
  Offered, handle_slot_request_offers, acknowledged_request, unacknowledged_request,
}
use microagent.Broker.Defer.{Deferred, handle_slot_request_defers}
use microagent.Broker.Preemption.{fire_preempt_overwrites}
use microagent.Broker.Reach.{Reach, start, next, message, new_with_classes, Reach-WellFormed}

abbrev calm : Env
calm = record { now = 100; publish_ok = λ s. true; between = [] }

abbrev asks : Message
asks = record { correlation_id = "c7"; source = "retro"; reply_stream = "s7" }

abbrev wants : SlotRequestPayload
wants = record { agent_id = "retro"; priority = pos 2; slot_class = "" }

abbrev ready : Broker
ready = record {
  slots = assigned_entry 0 agent "main" (pos 0) 10 ∷ blank 1 agent ∷ [];
  registry = [];
  pending_queue = [];
  timers = [];
  published = [];
}

ready-WellFormed : WellFormed 0 ready.slots
ready-WellFormed = ground arith

ready-IsFresh : IsFresh "c7" ready.slots
ready-IsFresh = (refl, (refl, tt))

named : ◌≢◌ {A = String} "s7" ""
named = ground (arith, eq_iff "s7" "")

one_free : find_unassigned agent ready.slots ≢ none
unfolding find_unassigned
one_free e = cc

wants_agent : normalize_class "" ≡ (agent, true)
unfolding normalize_class
wants_agent = refl

Offered-run : Offered calm asks wants agent ready (handle_slot_request calm asks wants ready)
Offered-run =
    handle_slot_request_offers calm asks wants agent ready wants_agent ready-WellFormed refl named
      refl one_free

abbrev acks : SlotAssignedAckPayload
acks = record { agent_id = "retro"; slot_id = pos 1 }

acknowledged_request_example :
    let b'' = handle_slot_assigned_ack asks acks (handle_slot_request calm asks wants ready) in
    (b''.slots
      ≡ set ready.slots Offered-run.slot
          (assigned_entry Offered-run.slot agent "retro" (pos 2) 100))
    × (is_owned_by (pos Offered-run.slot) "retro" b''.slots ≡ true)
    × (b''.pending_queue ≡ [])
    × (fire_reclaim calm "c7" b'' ≡ b'')
acknowledged_request_example =
    acknowledged_request calm calm asks wants agent ready
      (handle_slot_request calm asks wants ready) acks ready-IsFresh Offered-run

unacknowledged_request_example :
    (fire_reclaim calm "c7" (handle_slot_request calm asks wants ready)).slots ≡ ready.slots
unacknowledged_request_example =
    unacknowledged_request calm calm asks wants agent ready
      (handle_slot_request calm asks wants ready) ready-WellFormed ready-IsFresh refl Offered-run

abbrev full : Broker
full = record ready {
  slots = assigned_entry 0 agent "main" (pos 0) 10 ∷ assigned_entry 1 agent "other" (pos 9) 11 ∷ [];
}

none_free : find_unassigned agent full.slots ≡ none
unfolding find_unassigned
none_free = refl

handle_slot_request_defers_example :
    Deferred asks wants agent full (handle_slot_request calm asks wants full)
handle_slot_request_defers_example =
    handle_slot_request_defers calm asks wants agent full wants_agent none_free

-- "other" was preempted for "retro" and gave slot 1 back, which then went to "third".
abbrev handed_on : Broker
handed_on = record ready {
  slots = assigned_entry 0 agent "main" (pos 0) 10 ∷ assigned_entry 1 agent "third" (pos 3) 12 ∷ [];
}

other_gone : get_by_agent "other" handed_on.slots ≡ none
unfolding get_by_agent
other_gone = refl

third_holds : is_owned_by (pos 1) "third" handed_on.slots ≡ true
unfolding is_owned_by
third_holds = refl

third_ne_retro : ◌≢◌ {A = String} "third" "retro"
third_ne_retro = ground (arith, eq_iff "third" "retro")

fire_preempt_overwrites_example :
    let b' = fire_preempt calm "other" 1 asks wants handed_on in
    (is_owned_by (pos 1) "third" b'.slots ≡ false)
    × (is_owned_by (pos 1) "retro" b'.slots ≡ true)
    × (b'.published ≡ slot_assigned "s7" "c7" 1 ∷ [])
    × (b'.pending_queue ≡ [])
fire_preempt_overwrites_example =
    fire_preempt_overwrites calm "other" "third" 1 asks wants handed_on other_gone third_holds
      third_ne_retro named refl

-- Two requests wait, the later one with the smaller priority number.
abbrev waiting : ℤ → String → SlotRequest
waiting priority corr = record {
  agent_id = corr;
  priority = priority;
  correlation_id = corr;
  reply_stream = "s";
  class = agent;
}

abbrev queue : List SlotRequest
queue = waiting (pos 5) "c1" ∷ waiting (pos 2) "c2" ∷ waiting (pos 2) "c3" ∷ []

best_of_queue :
    best_request ready.slots 0 none queue
    ≡ some (record { index = 1; slot = 1; request = waiting (pos 2) "c2" })
unfolding best_request find_unassigned
best_of_queue = refl

best_request_min_example :
    ((best_request ready.slots 0 none queue ≡ none)
      × All (λ r. ¬ AnyFree r.class ready.slots) queue)
    ⊎ ((c : Choice) × (best_request ready.slots 0 none queue ≡ some c)
        × BestRequest ready.slots queue c)
best_request_min_example = best_request_min ready.slots ready-WellFormed queue

abbrev first_request : Broker
first_request =
    handle_message calm asks (slot_request (some wants)) (new_with_classes (pos 1) (pos 1))

first_request-Reach : Reach (pos 1) (pos 1) first_request
first_request-Reach = next start (message calm asks (slot_request (some wants)))

Reach-WellFormed_example :
    WellFormed 0 first_request.slots × (classes first_request.slots ≡ agent ∷ hindsight ∷ [])
Reach-WellFormed_example = Reach-WellFormed (pos 1) (pos 1) first_request-Reach
