-- ===== src/Examples/Waiting.antt =====
-- The queue of internal/broker/broker.go when an agent releases two slots.
use microagent.Prelude.{String, ◌≡◌, ◌≢◌, refl, true, [], ◌∷◌, arith}
use microagent.Prelude.Text.{eq_iff}
use microagent.Prelude.Int.{pos, negsuc}
use microagent.Slots.{
  agent, blank, assigned_entry, provisional_entry, find_unassigned, release_by_agent,
  assign_provisional,
}
use microagent.Broker.{
  Broker, Env, SlotRequest, SlotReleasePayload, reclaim, slot_assigned, best_request, take_choice,
  confirm_queued, assign_from_queue, free_agent_slots, handle_slot_release, handle_dead_agent,
}
use microagent.Slots.Ops.{apply_all}
use microagent.Broker.Waiting.{Released, Freed, handle_slot_release_one}

abbrev calm : Env
calm = record { now = 100; publish_ok = λ s. true; between = [] }

abbrev waiting : String → SlotRequest
waiting corr = record {
  agent_id = corr;
  priority = pos 2;
  correlation_id = corr;
  reply_stream = "s";
  class = agent;
}

-- "main" holds both slots, and two requests wait.
abbrev both_held : Broker
both_held = record {
  slots = assigned_entry 0 agent "main" (pos 0) 10 ∷ assigned_entry 1 agent "main" (pos 0) 11 ∷ [];
  registry = [];
  pending_queue = waiting "c1" ∷ waiting "c2" ∷ [];
  timers = [];
  published = [];
}

abbrev gives_back : SlotReleasePayload
gives_back = record { agent_id = "main"; slot_id = negsuc 0 }

named : ◌≢◌ {A = String} "s" ""
named = ground (arith, eq_iff "s" "")

-- Slot 1 stays free and "c2" keeps waiting for one.
one_waits_on : handle_slot_release calm gives_back both_held ≡ record {
  slots = provisional_entry 0 agent "c1" (pos 2) "c1" 100 ∷ blank 1 agent ∷ [];
  registry = [];
  pending_queue = waiting "c2" ∷ [];
  timers = reclaim "c1" ∷ [];
  published = slot_assigned "s" "c1" 0 ∷ [];
}
unfolding handle_slot_release free_agent_slots assign_from_queue best_request take_choice
    confirm_queued find_unassigned release_by_agent assign_provisional apply_all
one_waits_on = refl

handle_slot_release_one_example :
    Released calm gives_back both_held (handle_slot_release calm gives_back both_held)
    × Freed calm "main" both_held (handle_dead_agent calm "main" both_held)
handle_slot_release_one_example =
    handle_slot_release_one calm gives_back "main" both_held (ground arith) refl
      ((named, refl), ((named, refl), tt))
