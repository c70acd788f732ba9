-- ===== src/Slots.antt =====
-- internal/broker/slots.go: the table of llama-server slots.
-- A table is the list of its entries; the mutex makes each method one atomic step, so a method is a
-- function from the table to the new table and its result. `(int, bool)` results that are
-- `(-1, false)` on failure are `none`. A slot number that comes from a caller is an integer, since
-- messages carry negative ones; the number an entry holds is the index it was made at. Times are
-- nanoseconds, 0 for Go's zero `time.Time`, and the clock's reading is an argument.
mod Entry
pub mod Ops
pub mod WellFormed
pub mod Classes
pub mod Find
pub mod TwoPhase
pub mod Release
pub mod Preempt
unfoldable pub use Entry.*
use microagent.Prelude.{
  ℕ, zero, suc, String, Bool, true, false, ◌&&◌, ◌||◌, Option, none, some, List, [], ◌∷◌, ◌++◌, map,
  if◌then◌else◌, get_elem?, set,
}
use microagent.Prelude.Int.{ℤ, pos, negsuc, pos_part, sub_ℕ, ltb_ℤ}
use microagent.Prelude.Text.{str_eq}

-- `SlotEntry{SlotID: i, Class: c, State: SlotUnassigned}`
abbrev pub blank : ℕ → SlotClass → SlotEntry
blank i c = record {
  slot_id = i;
  class = c;
  state = unassigned;
  agent_id = "";
  priority = pos 0;
  assigned_at = 0;
  correlation_id = "";
}

-- The entries for `k` slots of one class from index `i` on.
pub blanks : ℕ → ℕ → SlotClass → SlotTable
blanks i zero c = []
blanks i (suc k) c = blank i c ∷ blanks (suc i) k c

unfoldable pub new_slot_table_with_classes : ℤ → ℤ → SlotTable
unfolding blanks
new_slot_table_with_classes agent_count hindsight_count =
    blanks 0 (pos_part agent_count) agent
    ++ blanks (pos_part agent_count) (pos_part hindsight_count) hindsight

unfoldable pub new_slot_table : ℤ → SlotTable
unfolding new_slot_table_with_classes
new_slot_table count = new_slot_table_with_classes count (pos 0)

abbrev pub is_unassigned : SlotState → Bool
is_unassigned unassigned = true
is_unassigned _ = false

abbrev pub is_provisional : SlotState → Bool
is_provisional provisional = true
is_provisional _ = false

abbrev pub is_assigned : SlotState → Bool
is_assigned assigned = true
is_assigned _ = false

unfoldable pub find_unassigned : SlotClass → SlotTable → Option ℕ
find_unassigned c [] = none
find_unassigned c (s ∷ t) =
    if class_eq s.class c && is_unassigned s.state then some s.slot_id else find_unassigned c t

-- `st.slots[slotID]`, `none` where the number is negative or past the end.
abbrev pub entry_at : ℤ → SlotTable → Option SlotEntry
entry_at (pos i) t = get_elem? t i
entry_at (negsuc i) t = none

unfoldable pub class_of : ℤ → SlotTable → SlotClass
class_of i t = elim (entry_at i t) [ none ↦ unset | some s ↦ s.class ]

-- A call that may run past an index check and panic.
pub data Call {ℓ} (A : Type ℓ) : Type ℓ where
  returns : A → Call A
  panics : Call A

abbrev pub provisional_entry : ℕ → SlotClass → String → ℤ → String → ℕ → SlotEntry
provisional_entry i c agent_id priority corr now = record {
  slot_id = i;
  class = c;
  state = provisional;
  agent_id = agent_id;
  priority = priority;
  assigned_at = now;
  correlation_id = corr;
}

abbrev pub assigned_entry : ℕ → SlotClass → String → ℤ → ℕ → SlotEntry
assigned_entry i c agent_id priority now = record {
  slot_id = i;
  class = c;
  state = assigned;
  agent_id = agent_id;
  priority = priority;
  assigned_at = now;
  correlation_id = "";
}

unfoldable pub assign_provisional : ℕ → ℤ → String → ℤ → String → SlotTable → SlotTable × Bool
assign_provisional now i agent_id priority corr t = elim (entry_at i t) [
  | none ↦ (t, false)
  | some s ↦
      if is_unassigned s.state
      then (
        set t (pos_part i) (provisional_entry (pos_part i) s.class agent_id priority corr now),
        true,
      )
      else (t, false)
]

-- The test of the loops in `CommitAssignment` and `RevertProvisional`.
abbrev pub awaits : String → SlotEntry → Bool
awaits corr s = is_provisional s.state && str_eq s.correlation_id corr

unfoldable pub commit_assignment : String → SlotTable → SlotTable × Option ℕ
commit_assignment corr [] = ([], none)
commit_assignment corr (s ∷ t) =
    let (t', found) = commit_assignment corr t in
    if awaits corr s
    then (record s { state = assigned; correlation_id = "" } ∷ t, some s.slot_id)
    else (s ∷ t', found)

unfoldable pub revert_provisional : String → SlotTable → SlotTable × Option ℕ
revert_provisional corr [] = ([], none)
revert_provisional corr (s ∷ t) =
    let (t', found) = revert_provisional corr t in
    if awaits corr s then (blank s.slot_id s.class ∷ t, some s.slot_id) else (s ∷ t', found)

-- `Assign` and `ForceAssign` test the upper bound only: a negative number panics.
unfoldable pub assign : ℕ → ℤ → String → ℤ → SlotTable → Call (SlotTable × Bool)
assign now (negsuc i) agent_id priority t = panics
assign now (pos i) agent_id priority t = elim (get_elem? t i) [
  | none ↦ returns (t, false)
  | some s ↦
      if is_unassigned s.state
      then returns (set t i (assigned_entry i s.class agent_id priority now), true)
      else returns (t, false)
]

unfoldable pub force_assign : ℕ → ℤ → String → ℤ → SlotTable → Call SlotTable
force_assign now (negsuc i) agent_id priority t = panics
force_assign now (pos i) agent_id priority t = elim (get_elem? t i) [
  | none ↦ returns t
  | some s ↦ returns (set t i (assigned_entry i s.class agent_id priority now))
]

unfoldable pub release : ℤ → SlotTable → SlotTable
release i t = elim (entry_at i t) [
  | none ↦ t
  | some s ↦ set t (pos_part i) (blank (pos_part i) s.class)
]

-- The loop of `ReleaseByAgent` from index `i` on.
pub release_from : ℕ → String → SlotTable → SlotTable × List ℕ
release_from i agent_id [] = ([], [])
release_from i agent_id (s ∷ t) =
    let (t', released) = release_from (suc i) agent_id t in
    if str_eq s.agent_id agent_id then (blank i s.class ∷ t', i ∷ released) else (s ∷ t', released)

unfoldable pub release_by_agent : String → SlotTable → SlotTable × List ℕ
unfolding release_from
release_by_agent agent_id t = release_from 0 agent_id t

-- A candidate for preemption: slot, agent, priority.
pub record Victim : Type 0 where
  pub slot : ℕ
  pub agent_id : String
  pub priority : ℤ

abbrev pub victim_of : SlotEntry → Victim
victim_of s = record { slot = s.slot_id; agent_id = s.agent_id; priority = s.priority }

-- `bestSlot == -1 || s.Priority > bestPriority`
abbrev pub improves : Option Victim → SlotEntry → Bool
improves none s = true
improves (some v) s = ltb_ℤ v.priority s.priority

abbrev pub is_candidate : SlotClass → (String → Bool) → SlotEntry → Bool
is_candidate c is_preemptible s =
    class_eq s.class c && (is_assigned s.state && is_preemptible s.agent_id)

pub best_victim : SlotClass → (String → Bool) → Option Victim → SlotTable → Option Victim
best_victim c is_preemptible best [] = best
best_victim c is_preemptible best (s ∷ t) =
    best_victim c is_preemptible
      (if is_candidate c is_preemptible s && improves best s then some (victim_of s) else best) t

unfoldable pub find_lowest_priority_preemptible :
    SlotClass → (String → Bool) → SlotTable → Option Victim
unfolding best_victim
find_lowest_priority_preemptible c is_preemptible t = best_victim c is_preemptible none t

unfoldable pub get_by_agent : String → SlotTable → Option ℕ
get_by_agent agent_id [] = none
get_by_agent agent_id (s ∷ t) =
    if str_eq s.agent_id agent_id && is_assigned s.state
    then some s.slot_id
    else get_by_agent agent_id t

abbrev pub owned_by : String → SlotEntry → Bool
owned_by agent_id s = (is_assigned s.state || is_provisional s.state) && str_eq s.agent_id agent_id

unfoldable pub is_owned_by : ℤ → String → SlotTable → Bool
is_owned_by i agent_id t = elim (entry_at i t) [ none ↦ false | some s ↦ owned_by agent_id s ]

abbrev pub snapshot_entry : ℕ → SlotEntry → SlotSnapshotEntry
unfolding state_string class_string
snapshot_entry now s = record {
  slot_id = s.slot_id;
  class = class_string s.class;
  state = state_string s.state;
  agent_id = if is_unassigned s.state then "" else s.agent_id;
  priority = s.priority;
  age = if is_unassigned s.state then pos 0 else sub_ℕ now s.assigned_at;
}

unfoldable pub snapshot : ℕ → SlotTable → List SlotSnapshotEntry
unfolding state_string class_string snapshot_entry
snapshot now t = map (snapshot_entry now) t
