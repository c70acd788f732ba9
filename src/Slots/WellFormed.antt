-- ===== src/Slots/WellFormed.antt =====
-- The invariant of the slot table of internal/broker/slots.go: every entry holds its own index, a
-- free entry is blank, and a committed one has no correlation left.
use microagent.Prelude.{
  ℕ, zero, suc, ◌+◌, String, ◌≡◌, refl, some, List, [], ◌∷◌, ◌++◌, arith, get_elem?, set,
  Bool-cases, Option-cases, true, false, ◌⊎◌, inl, inr,
}
use microagent.Prelude.Int.{ℤ, pos, negsuc, pos_part}
use native.Mathlib.Nat.{add-zero, zero-add}
use microagent.Slots.{
  is_unassigned, SlotClass, SlotEntry, SlotTable, unassigned, assigned, agent, hindsight, blank,
  blanks, provisional_entry, assigned_entry, assign_provisional, commit_assignment,
  revert_provisional, assign, force_assign, release, release_from, release_by_agent,
  new_slot_table_with_classes,
}
use microagent.Slots.Ops.{
  Op, provision, commit, revert, give, force, free, free_agent, apply, apply_all, after_assign,
  after_force,
}

pub record IsClean (s : SlotEntry) : Type 0 where
  pub agent_blank : s.state ≡ unassigned → s.agent_id ≡ ""
  pub priority_blank : s.state ≡ unassigned → s.priority ≡ pos 0
  pub time_blank : s.state ≡ unassigned → s.assigned_at ≡ 0
  pub correlation_blank : s.state ≡ unassigned → s.correlation_id ≡ ""
  pub committed : s.state ≡ assigned → s.correlation_id ≡ ""

-- The entries of `t` stand at the indices from `n` on.
abbrev pub WellFormed : ℕ → SlotTable → Type 0
WellFormed n [] = Unit
WellFormed n (s ∷ t) = (s.slot_id ≡ n) × IsClean s × WellFormed (suc n) t

pub blank-IsClean : (i : ℕ) (c : SlotClass) → IsClean (blank i c)
blank-IsClean i c = ground arith

provisional-IsClean :
    (i now : ℕ) (c : SlotClass) (a : String) (p : ℤ) (corr : String)
    → IsClean (provisional_entry i c a p corr now)
provisional-IsClean i now c a p corr = ground arith

assigned-IsClean :
    (i now : ℕ) (c : SlotClass) (a : String) (p : ℤ) → IsClean (assigned_entry i c a p now)
assigned-IsClean i now c a p = ground arith

pub set-WellFormed :
    (n : ℕ) (t : SlotTable) (i : ℕ) (e : SlotEntry)
    → WellFormed n t
    → e.slot_id ≡ n + i
    → IsClean e
    → WellFormed n (set t i e)
set-WellFormed n [] i e w h c = tt
set-WellFormed n (s ∷ t) zero e w h c = (omega arith, c, w.2)
set-WellFormed n (s ∷ t) (suc i) e w h c =
    (w.0, w.1, set-WellFormed (suc n) t i e w.2 (omega arith) c)

-- A provisional assignment either changes nothing, or fills the free slot at an index of the table.
pub assign_provisional_cases :
    (now : ℕ) (i : ℤ) (a : String) (p : ℤ) (corr : String) (t : SlotTable)
    → (assign_provisional now i a p corr t ≡ (t, false))
      ⊎ ((k : ℕ) × (s : SlotEntry) × (i ≡ pos k)
          × (get_elem? t k ≡ some s)
          × (s.state ≡ unassigned)
          × (assign_provisional now i a p corr t
              ≡ (set t k (provisional_entry k s.class a p corr now), true)))
unfolding assign_provisional
assign_provisional_cases now (negsuc i) a p corr t = inl refl
assign_provisional_cases now (pos i) a p corr t = elim (Option-cases (get_elem? t i)) [
  | inl e ↦ inl (ground arith)
  | inr (s, e) ↦ elim (Bool-cases (is_unassigned s.state)) [
    | inl vacant ↦ inr (i, s, refl, e, ground arith, ground arith)
    | inr taken ↦ inl (ground arith)
  ]
]

pub assign_provisional-WellFormed :
    (now : ℕ) (i : ℤ) (a : String) (p : ℤ) (corr : String) (t : SlotTable)
    → WellFormed 0 t
    → WellFormed 0 (assign_provisional now i a p corr t).0
assign_provisional-WellFormed now i a p corr t w =
    elim (assign_provisional_cases now i a p corr t) [
      | inl e ↦ rw e w
      | inr (k, s, _, _, _, e) ↦
          rw e (set-WellFormed 0 t k _ w (omega arith) (provisional-IsClean k now s.class a p corr))
    ]

assign-WellFormed :
    (now : ℕ) (i : ℤ) (a : String) (p : ℤ) (t : SlotTable)
    → WellFormed 0 t
    → WellFormed 0 (after_assign t (assign now i a p t))
unfolding assign
assign-WellFormed now (negsuc i) a p t w = w
assign-WellFormed now (pos i) a p t w = elim (Option-cases (get_elem? t i)) [
  | inl e ↦ rw (e, assign, after_assign) w
  | inr (s, e) ↦ elim (Bool-cases (is_unassigned s.state)) [
    | inl vacant ↦
        rw (e, assign, after_assign)
          (rw vacant (set-WellFormed 0 t i _ w (omega arith) (assigned-IsClean i now s.class a p)))
    | inr taken ↦ rw (e, assign, after_assign) (rw taken w)
  ]
]

force_assign-WellFormed :
    (now : ℕ) (i : ℤ) (a : String) (p : ℤ) (t : SlotTable)
    → WellFormed 0 t
    → WellFormed 0 (after_force t (force_assign now i a p t))
unfolding force_assign
force_assign-WellFormed now (negsuc i) a p t w = w
force_assign-WellFormed now (pos i) a p t w = elim (Option-cases (get_elem? t i)) [
  | inl e ↦ rw (e, force_assign, after_force) w
  | inr (s, e) ↦
      rw (e, force_assign, after_force)
        (set-WellFormed 0 t i _ w (omega arith) (assigned-IsClean i now s.class a p))
]

pub release-WellFormed : (i : ℤ) (t : SlotTable) → WellFormed 0 t → WellFormed 0 (release i t)
unfolding release
release-WellFormed (negsuc i) t w = w
release-WellFormed (pos i) t w = elim (Option-cases (get_elem? t i)) [
  | inl e ↦ rw (e, release) w
  | inr (s, e) ↦ rw (e, release) (set-WellFormed 0 t i _ w (omega arith) (blank-IsClean i s.class))
]

pub commit-WellFormed :
    (n : ℕ) (corr : String) (t : SlotTable)
    → WellFormed n t
    → WellFormed n (commit_assignment corr t).0
unfolding commit_assignment
commit-WellFormed n corr [] w = tt
commit-WellFormed n corr (s ∷ t) w = ground (arith, commit-WellFormed (suc n) corr t w.2)

pub revert-WellFormed :
    (n : ℕ) (corr : String) (t : SlotTable)
    → WellFormed n t
    → WellFormed n (revert_provisional corr t).0
unfolding revert_provisional
revert-WellFormed n corr [] w = tt
revert-WellFormed n corr (s ∷ t) w = ground (arith, revert-WellFormed (suc n) corr t w.2)

release_from-WellFormed :
    (n : ℕ) (a : String) (t : SlotTable) → WellFormed n t → WellFormed n (release_from n a t).0
unfolding release_from
release_from-WellFormed n a [] w = tt
release_from-WellFormed n a (s ∷ t) w = ground (arith, release_from-WellFormed (suc n) a t w.2)

pub release_by_agent-WellFormed :
    (a : String) (t : SlotTable) → WellFormed 0 t → WellFormed 0 (release_by_agent a t).0
unfolding release_by_agent
release_by_agent-WellFormed a t w = release_from-WellFormed 0 a t w

-- Every call of the table, with any arguments, keeps the table well formed.
pub apply-WellFormed : (o : Op) (t : SlotTable) → WellFormed 0 t → WellFormed 0 (apply o t)
unfolding apply release_by_agent
apply-WellFormed (provision now i a p corr) t w = assign_provisional-WellFormed now i a p corr t w
apply-WellFormed (commit corr) t w = commit-WellFormed 0 corr t w
apply-WellFormed (revert corr) t w = revert-WellFormed 0 corr t w
apply-WellFormed (give now i a p) t w = assign-WellFormed now i a p t w
apply-WellFormed (force now i a p) t w = force_assign-WellFormed now i a p t w
apply-WellFormed (free i) t w = release-WellFormed i t w
apply-WellFormed (free_agent a) t w = release_from-WellFormed 0 a t w

apply_all-WellFormed :
    (os : List Op) (t : SlotTable) → WellFormed 0 t → WellFormed 0 (apply_all os t)
unfolding apply_all
apply_all-WellFormed [] t w = w
apply_all-WellFormed (o ∷ os) t w = apply_all-WellFormed os (apply o t) (apply-WellFormed o t w)

blanks-WellFormed : (n k : ℕ) (c : SlotClass) → WellFormed n (blanks n k c)
unfolding blanks
blanks-WellFormed n zero c = tt
blanks-WellFormed n (suc k) c = (refl, blank-IsClean n c, blanks-WellFormed (suc n) k c)

blanks_append-WellFormed :
    (n k : ℕ) (c : SlotClass) (t : SlotTable)
    → WellFormed (n + k) t
    → WellFormed n (blanks n k c ++ t)
unfolding blanks
blanks_append-WellFormed n zero c t w = rw add-zero at w
blanks_append-WellFormed n (suc k) c t w =
    (refl, blank-IsClean n c, blanks_append-WellFormed (suc n) k c t (rw (← add_suc_shift n k) w))
  where
    add_suc_shift : (n k : ℕ) → n + suc k ≡ suc n + k
    add_suc_shift n k = omega arith

-- However the table is made and whatever calls follow, it is well formed: entry `i` holds the
-- number `i`, a free entry has no agent, priority, time or correlation, and an assigned one no
-- correlation.
pub history-WellFormed :
    (agents hindsights : ℤ) (os : List Op)
    → WellFormed 0 (apply_all os (new_slot_table_with_classes agents hindsights))
unfolding new_slot_table_with_classes
history-WellFormed agents hindsights os =
    apply_all-WellFormed os (new_slot_table_with_classes agents hindsights) (
      blanks_append-WellFormed 0 (pos_part agents) agent _
        (rw zero-add (blanks-WellFormed _ (pos_part hindsights) hindsight)))
