-- ===== src/Slots/Release.antt =====
-- `ReleaseByAgent` and the ownership tests of internal/broker/slots.go.
use microagent.Prelude.{
  ℕ, zero, suc, ◌≡◌, ◌≢◌, refl, false, none, some, List, [], ◌∷◌, map, arith, get_elem?,
  Option-cases, inl, inr, String, if◌then◌else◌,
}
use microagent.Prelude.Int.{ℤ, pos, negsuc}
use microagent.Prelude.Text.{str_eq, eq_iff}
use microagent.Slots.{
  SlotEntry, SlotTable, blank, release_from, release_by_agent, get_by_agent, is_owned_by, owned_by,
}
use microagent.Slots.WellFormed.{WellFormed}

-- What a release by agent does to one entry.
abbrev pub evict : String → SlotEntry → SlotEntry
evict a s = if str_eq s.agent_id a then blank s.slot_id s.class else s

-- The numbers of the entries that an agent is written in.
abbrev pub held_by : String → SlotTable → List ℕ
held_by a [] = []
held_by a (s ∷ t) = if str_eq s.agent_id a then s.slot_id ∷ held_by a t else held_by a t

release_from_lem :
    (n : ℕ) (a : String) (t : SlotTable)
    → WellFormed n t
    → release_from n a t ≡ (map (evict a) t, held_by a t)
unfolding release_from
release_from_lem n a [] w = refl
release_from_lem n a (s ∷ t) w = ground (arith, release_from_lem (suc n) a t w.2)

-- On a well-formed table a release by agent blanks exactly the entries that the agent is written
-- in, keeping their number and class, leaves all others as they are, and returns the blanked
-- numbers in order.
pub release_by_agent-evict :
    (a : String) (t : SlotTable)
    → WellFormed 0 t
    → release_by_agent a t ≡ (map (evict a) t, held_by a t)
unfolding release_by_agent
release_by_agent-evict a t w = release_from_lem 0 a t w

get_by_agent-evict : (a : String) (t : SlotTable) → a ≢ "" → get_by_agent a (map (evict a) t) ≡ none
unfolding get_by_agent
get_by_agent-evict a [] h = refl
get_by_agent-evict a (s ∷ t) h =
    ground (arith, get_by_agent-evict a t h, eq_iff s.agent_id a, eq_iff "" a)

owned_by-evict :
    (a : String) (t : SlotTable) (i : ℕ) {s : SlotEntry}
    → get_elem? (map (evict a) t) i ≡ some s
    → owned_by a s ≡ false
owned_by-evict a [] i g = cc
owned_by-evict a (x ∷ t) zero g = ground (arith, eq_iff x.agent_id a)
owned_by-evict a (x ∷ t) (suc i) g = owned_by-evict a t i g

-- After a release by agent the agent owns no slot, whatever slot number it names.
pub release_by_agent-is_owned_by :
    (a : String) (t : SlotTable) (i : ℤ)
    → WellFormed 0 t
    → is_owned_by i a (release_by_agent a t).0 ≡ false
unfolding is_owned_by
release_by_agent-is_owned_by a t (negsuc i) w = refl
release_by_agent-is_owned_by a t (pos i) w =
    rw (release_by_agent-evict a t w) (elim (Option-cases (get_elem? (map (evict a) t) i)) [
      | inl e ↦ rw (e, is_owned_by)
      | inr (s, e) ↦ rw (e, is_owned_by) (owned_by-evict a t i e)
    ])
