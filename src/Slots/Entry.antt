-- ===== src/Slots/Entry.antt =====
-- The entries of the slot table of internal/broker/slots.go.
use microagent.Prelude.{ℕ, String, Bool, true, false, ◌||◌, List, if◌then◌else◌}
use microagent.Prelude.Int.{ℤ}
use microagent.Prelude.Text.{str_eq}

pub data SlotState : Type 0 where
  unassigned provisional assigned : SlotState

unfoldable pub state_string : SlotState → String
state_string unassigned = "unassigned"
state_string provisional = "provisional"
state_string assigned = "assigned"

-- `unset` is the empty string, which `ClassOf` and a refusing `NormalizeClass` return.
pub data SlotClass : Type 0 where
  agent hindsight unset : SlotClass

unfoldable pub class_string : SlotClass → String
class_string agent = "agent"
class_string hindsight = "hindsight"
class_string unset = ""

abbrev pub class_eq : SlotClass → SlotClass → Bool
class_eq agent agent = true
class_eq hindsight hindsight = true
class_eq unset unset = true
class_eq _ _ = false

unfoldable pub normalize_class : String → SlotClass × Bool
normalize_class s =
    if str_eq s "" || str_eq s "agent"
    then (agent, true)
    else if str_eq s "hindsight"
    then (hindsight, true)
    else (unset, false)

pub record SlotEntry : Type 0 where
  pub slot_id : ℕ
  pub class : SlotClass
  pub state : SlotState
  pub agent_id : String
  pub priority : ℤ
  pub assigned_at : ℕ
  pub correlation_id : String

pub record SlotSnapshotEntry : Type 0 where
  pub slot_id : ℕ
  pub class : String
  pub state : String
  pub agent_id : String
  pub priority : ℤ
  pub age : ℤ  -- nanoseconds; the code gives them as floating-point seconds

abbrev pub SlotTable : Type 0
SlotTable = List SlotEntry
