-- ===== src/Broker/Reach.antt =====
-- The broker of internal/broker/broker.go as a step relation, and what holds in every reachable
-- state.
use microagent.Prelude.{String, ◌≡◌, Bool, List, [], ◌∷◌, ◌++◌, replicate, ◌∙◌, arith}
use microagent.Prelude.Int.{ℤ, pos_part}
use microagent.Slots.{SlotTable, SlotClass, agent, hindsight, new_slot_table_with_classes}
use microagent.Slots.Ops.{Op, apply, apply_all}
use microagent.Slots.WellFormed.{WellFormed, apply-WellFormed, history-WellFormed}
use microagent.Slots.Classes.{classes, classes-apply, history-classes}
use microagent.Registry.{Registry}
use microagent.Broker.{
  Broker, Env, Message, Incoming, Timer, handle_dead_agent, handle_message, fire,
  handle_snapshot_request,
}
use microagent.Broker.Invariant.{handle_message-keeps, fire-keeps, free_agent_slots-keeps}

-- One step of the broker: a message of the slot stream, a timer that fires and is gone, an agent
-- reported dead, a snapshot request, a change of the registry by its own consumer, a call of the
-- table by a goroutine in the middle of a handler.
pub data Step (b : Broker) : Broker → Type 0 where
  message : (env : Env) (msg : Message) (i : Incoming) → Step b (handle_message env msg i b)
  wake :
      (env : Env) (before after : List Timer) (w : Timer)
      → b.timers ≡ before ++ w ∷ after
      → Step b (fire env w (record b { timers = before ++ after }))
  death : (env : Env) (a : String) → Step b (handle_dead_agent env a b)
  asked :
      (env : Env) (msg : Message) (is_request : Bool)
      → Step b (handle_snapshot_request env msg is_request b)
  registered : (r : Registry) → Step b (record b { registry = r })

-- `NewWithClasses`: no agents, no waiting requests, no timers.
abbrev pub new_with_classes : ℤ → ℤ → Broker
new_with_classes agents hindsights = record {
  slots = new_slot_table_with_classes agents hindsights;
  registry = [];
  pending_queue = [];
  timers = [];
  published = [];
}

pub data Reach (agents hindsights : ℤ) : Broker → Type 0 where
  start : Reach agents hindsights (new_with_classes agents hindsights)
  next : {b b' : Broker} → Reach agents hindsights b → Step b b' → Reach agents hindsights b'

Step-keeps :
    (P : SlotTable → Type 0) (keep : (o : Op) (t : SlotTable) → P t → P (apply o t)) {b b' : Broker}
    → Step b b'
    → P b.slots
    → P b'.slots
unfolding handle_dead_agent handle_snapshot_request
Step-keeps P keep {b} (message env msg i) h = handle_message-keeps P keep env msg i b h
Step-keeps P keep {b} (wake env before after w e) h = fire-keeps P keep env w _ h
Step-keeps P keep {b} (death env a) h = free_agent_slots-keeps P keep env a b h
Step-keeps P keep {b} (asked env msg is_request) h = ground arith
Step-keeps P keep {b} (registered r) h = h

Reach-keeps :
    (P : SlotTable → Type 0) (keep : (o : Op) (t : SlotTable) → P t → P (apply o t))
    (agents hindsights : ℤ) {b : Broker}
    → P (new_slot_table_with_classes agents hindsights)
    → Reach agents hindsights b
    → P b.slots
Reach-keeps P keep agents hindsights p start = p
Reach-keeps P keep agents hindsights p (next r s) =
    Step-keeps P keep s (Reach-keeps P keep agents hindsights p r)

-- In every reachable state of the broker, under any order of messages, timers, deaths and races,
-- the slot table is well formed and has the slots of each class that it was made with.
pub Reach-WellFormed :
    (agents hindsights : ℤ) {b : Broker}
    → Reach agents hindsights b
    → WellFormed 0 b.slots
      × (classes b.slots
          ≡ replicate (pos_part agents) agent ++ replicate (pos_part hindsights) hindsight)
unfolding apply_all
Reach-WellFormed agents hindsights r = (
  Reach-keeps (WellFormed 0) (λ o t h. apply-WellFormed o t h) agents hindsights
      (history-WellFormed agents hindsights []) r,
  Reach-keeps (λ t. classes t ≡ layout) (λ o t h. classes-apply o t ∙ h) agents hindsights
      (history-classes agents hindsights []) r,
)
  where
    layout : List SlotClass
    layout = replicate (pos_part agents) agent ++ replicate (pos_part hindsights) hindsight
