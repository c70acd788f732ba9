-- ===== src/Broker/State.antt =====
-- The state of internal/broker/broker.go, its messages (internal/messaging) and its environment.
use microagent.Prelude.{ℕ, String, Bool, List}
use microagent.Prelude.Int.{ℤ}
use microagent.Slots.{SlotClass, SlotTable, SlotSnapshotEntry}
use microagent.Slots.Ops.{Op}
use microagent.Registry.{Registry}

pub record SlotRequest : Type 0 where
  pub agent_id : String
  pub priority : ℤ
  pub correlation_id : String
  pub reply_stream : String
  pub class : SlotClass

pub record SlotRequestPayload : Type 0 where
  pub agent_id : String
  pub priority : ℤ
  pub slot_class : String

pub record SlotAssignedAckPayload : Type 0 where
  pub agent_id : String
  pub slot_id : ℤ

pub record SlotReleasePayload : Type 0 where
  pub agent_id : String
  pub slot_id : ℤ

-- The fields of `messaging.Message` that the broker reads, but for the type and the payload.
pub record Message : Type 0 where
  pub correlation_id : String
  pub source : String
  pub reply_stream : String

-- A goroutine that sleeps: `scheduleReclaim`'s, and the one of `preemptAgent` with the victim, the
-- slot, the request's message and its payload.
pub data Timer : Type 0 where
  reclaim : String → Timer
  preempt : String → ℕ → Message → SlotRequestPayload → Timer

-- A publication that succeeded: stream, correlation and content, or a preemption notice on the
-- victim's channel with the requester and its priority.
pub data Outgoing : Type 0 where
  slot_assigned : String → String → ℕ → Outgoing
  preempt_notice : String → String → ℤ → Outgoing
  slot_snapshot : String → String → List SlotSnapshotEntry → Outgoing

pub record Env : Type 0 where
  pub now : ℕ
  pub publish_ok : String → Bool
  pub between : List Op

pub record Broker : Type 0 where
  pub slots : SlotTable
  pub registry : Registry
  pub pending_queue : List SlotRequest
  pub timers : List Timer
  pub published : List Outgoing
