-- ===== src/Examples/Slots.antt =====
-- internal/broker/slots.go on small tables.
use microagent.Prelude.{String, ◌≡◌, refl, Bool, true, none, some, List, [], ◌∷◌}
use microagent.Prelude.Int.{pos, negsuc}
use microagent.Slots.{
  SlotTable, agent, hindsight, unset, blank, provisional_entry, assigned_entry,
  new_slot_table_with_classes, new_slot_table, find_unassigned, class_of, panics, assign,
  find_lowest_priority_preemptible,
}
use microagent.Slots.Ops.{Op, provision, commit, revert, force, free, free_agent}
use microagent.Slots.Release.{held_by}

-- Slot 0 is assigned to "a", slot 1 offered to "b", slot 2 free, slot 3 a free hindsight slot.
abbrev busy : SlotTable
busy =
    assigned_entry 0 agent "a" (pos 5) 10
    ∷ provisional_entry 1 agent "b" (pos 3) "c1" 12
    ∷ blank 2 agent
    ∷ blank 3 hindsight
    ∷ []

busy_new :
    new_slot_table_with_classes (pos 3) (pos 1)
    ≡ blank 0 agent ∷ blank 1 agent ∷ blank 2 agent ∷ blank 3 hindsight ∷ []
unfolding new_slot_table_with_classes
busy_new = refl

new_negative : new_slot_table (negsuc 4) ≡ []
unfolding new_slot_table
new_negative = refl

find_busy : find_unassigned agent busy ≡ some 2
unfolding find_unassigned
find_busy = refl

find_unset : find_unassigned unset busy ≡ none
unfolding find_unassigned
find_unset = refl

class_of_range : class_of (negsuc 0) busy ≡ unset
unfolding class_of
class_of_range = refl

assign_panics : assign 1 (negsuc 0) "z" (pos 0) busy ≡ panics
unfolding assign
assign_panics = refl

history : List Op
history =
    provision 5 (pos 0) "a" (pos 5) "c0"
    ∷ commit "c0"
    ∷ provision 6 (pos 1) "b" (pos 3) "c1"
    ∷ free (negsuc 0)
    ∷ revert "c9"
    ∷ force 7 (pos 2) "d" (pos 0)
    ∷ free_agent "d"
    ∷ []

held_busy : held_by "a" busy ≡ 0 ∷ []
held_busy = refl

abbrev all_preemptible : String → Bool
all_preemptible a = true

victim_busy :
    find_lowest_priority_preemptible agent all_preemptible busy
    ≡ some (record { slot = 0; agent_id = "a"; priority = pos 5 })
unfolding find_lowest_priority_preemptible
victim_busy = refl
