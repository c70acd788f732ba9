-- ===== src/Registry/Lookup.antt =====
-- internal/registry/agent.go as a map: what each operation does to each lookup.
use microagent.Prelude.{
  ℕ, String, ◌≡◌, refl, true, false, none, some, [], ◌∷◌, arith, length, ◌+◌, if◌then◌else◌,
  Bool-cases, Option-cases, inl, inr,
}
use mathlib.Core.Option
use microagent.Prelude.Text.{str_eq, eq_iff}
use microagent.Registry.{
  AgentInfo, Registry, put, get, deregister, register, mark_heartbeat, mark_dead, list_alive,
  list_dead,
}

pub get-put :
    (k j : String) (v : AgentInfo) (r : Registry)
    → get j (put k v r) ≡ (if str_eq k j then some v else get j r)
unfolding get put
get-put k j v [] = refl
get-put k j v ((i, w) ∷ r) = ground (arith, eq_iff k j, eq_iff i k, eq_iff i j, get-put k j v r)

pub get-deregister :
    (k j : String) (r : Registry) → get j (deregister k r) ≡ (if str_eq k j then none else get j r)
unfolding get deregister
get-deregister k j [] = ground arith
get-deregister k j ((i, w) ∷ r) =
    ground (arith, eq_iff k j, eq_iff i k, eq_iff i j, get-deregister k j r)

pub get-register :
    (now : ℕ) (info : AgentInfo) (j : String) (r : Registry)
    → get j (register now info r) ≡ (
        if str_eq info.agent_id j
        then some (record info { alive = true; last_heartbeat = now })
        else get j r)
unfolding register
get-register now info j r = get-put info.agent_id j _ r

-- What a heartbeat and a death do to one record.
abbrev pub beat : ℕ → AgentInfo → AgentInfo
beat now info = record info { last_heartbeat = now; alive = true }

abbrev pub die : AgentInfo → AgentInfo
die info = record info { alive = false }

-- A write to the record of an agent that is there.
get-update :
    (f : AgentInfo → AgentInfo) (k j : String) (r : Registry) {info : AgentInfo}
    → get k r ≡ some info
    → get j (put k (f info) r) ≡ (if str_eq k j then Option.map f (get j r) else get j r)
get-update f k j r {info} e = elim (Bool-cases (str_eq k j)) [
  | inl same ↦
      rw (get-put k j (f info) r, same) (let q : k ≡ j = (eq_iff k j).0 same in rw (← q) (rw e))
  | inr other ↦ rw (get-put k j (f info) r, other)
]

absent :
    (f : AgentInfo → AgentInfo) (k j : String) (r : Registry)
    → get k r ≡ none
    → get j r ≡ (if str_eq k j then Option.map f (get j r) else get j r)
absent f k j r e = elim (Bool-cases (str_eq k j)) [
  | inl same ↦ rw same (let q : k ≡ j = (eq_iff k j).0 same in rw (← q) (rw e))
  | inr other ↦ rw other
]

-- A heartbeat sets the time and the life of its own agent, if that is registered, and nothing else.
pub get-mark_heartbeat :
    (now : ℕ) (k j : String) (r : Registry)
    → get j (mark_heartbeat now k r)
      ≡ (if str_eq k j then Option.map (beat now) (get j r) else get j r)
unfolding mark_heartbeat
get-mark_heartbeat now k j r = elim (Option-cases (get k r)) [
  | inl e ↦ rw (e, mark_heartbeat) (absent (beat now) k j r e)
  | inr (info, e) ↦ rw (e, mark_heartbeat) (get-update (beat now) k j r e)
]

-- A death clears the life of its own agent, if that is registered, and nothing else.
pub get-mark_dead :
    (k j : String) (r : Registry)
    → get j (mark_dead k r) ≡ (if str_eq k j then Option.map die (get j r) else get j r)
unfolding mark_dead
get-mark_dead k j r = elim (Option-cases (get k r)) [
  | inl e ↦ rw (e, mark_dead) (absent die k j r e)
  | inr (info, e) ↦ rw (e, mark_dead) (get-update die k j r e)
]

-- Every registered agent is listed exactly once, as alive or as dead.
pub alive-dead_length : (r : Registry) → length (list_alive r) + length (list_dead r) ≡ length r
unfolding list_alive list_dead
alive-dead_length [] = refl
alive-dead_length ((j, w) ∷ r) = ground (arith, alive-dead_length r)
