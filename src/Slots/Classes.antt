-- ===== src/Slots/Classes.antt =====
-- The classes of the slots of internal/broker/slots.go.
use microagent.Prelude.{
  ℕ, zero, suc, ◌≡◌, refl, ap, ◌∙◌, some, List, [], ◌∷◌, ◌++◌, map, arith, get_elem?, set,
  replicate, Bool-cases, Option-cases, inl, inr, String,
}
use microagent.Prelude.Int.{ℤ, pos, negsuc, pos_part}
use microagent.Slots.{
  SlotClass, SlotEntry, SlotTable, agent, hindsight, is_unassigned, blanks, assign_provisional,
  commit_assignment, revert_provisional, assign, force_assign, release, release_from,
  release_by_agent, new_slot_table_with_classes,
}
use microagent.Slots.Ops.{
  Op, provision, commit, revert, give, force, free, free_agent, apply, apply_all, after_assign,
  after_force,
}
use microagent.Slots.WellFormed.{assign_provisional_cases}

abbrev pub classes : SlotTable → List SlotClass
classes t = map (λ s. s.class) t

pub classes-set :
    (t : SlotTable) (i : ℕ) (s e : SlotEntry)
    → get_elem? t i ≡ some s
    → e.class ≡ s.class
    → classes (set t i e) ≡ classes t
classes-set [] i s e g h = refl
classes-set (x ∷ t) zero s e g h = ground arith
classes-set (x ∷ t) (suc i) s e g h = ap (◌∷◌ x.class) (classes-set t i s e g h)

classes-commit : (corr : String) (t : SlotTable) → classes (commit_assignment corr t).0 ≡ classes t
unfolding commit_assignment
classes-commit corr [] = refl
classes-commit corr (s ∷ t) = ground (arith, classes-commit corr t)

classes-revert : (corr : String) (t : SlotTable) → classes (revert_provisional corr t).0 ≡ classes t
unfolding revert_provisional
classes-revert corr [] = refl
classes-revert corr (s ∷ t) = ground (arith, classes-revert corr t)

classes-release_from :
    (n : ℕ) (a : String) (t : SlotTable) → classes (release_from n a t).0 ≡ classes t
unfolding release_from
classes-release_from n a [] = refl
classes-release_from n a (s ∷ t) = ground (arith, classes-release_from (suc n) a t)

classes-assign_provisional :
    (now : ℕ) (i : ℤ) (a : String) (p : ℤ) (corr : String) (t : SlotTable)
    → classes (assign_provisional now i a p corr t).0 ≡ classes t
classes-assign_provisional now i a p corr t = elim (assign_provisional_cases now i a p corr t) [
  | inl e ↦ rw e
  | inr (k, s, _, g, _, e) ↦ rw e (classes-set t k s _ g refl)
]

classes-assign :
    (now : ℕ) (i : ℤ) (a : String) (p : ℤ) (t : SlotTable)
    → classes (after_assign t (assign now i a p t)) ≡ classes t
unfolding assign
classes-assign now (negsuc i) a p t = refl
classes-assign now (pos i) a p t = elim (Option-cases (get_elem? t i)) [
  | inl e ↦ rw (e, assign, after_assign)
  | inr (s, e) ↦ elim (Bool-cases (is_unassigned s.state)) [
    | inl vacant ↦ rw (e, assign, after_assign) (rw vacant (classes-set t i s _ e refl))
    | inr taken ↦ rw (e, assign, after_assign) (rw taken)
  ]
]

classes-force_assign :
    (now : ℕ) (i : ℤ) (a : String) (p : ℤ) (t : SlotTable)
    → classes (after_force t (force_assign now i a p t)) ≡ classes t
unfolding force_assign
classes-force_assign now (negsuc i) a p t = refl
classes-force_assign now (pos i) a p t = elim (Option-cases (get_elem? t i)) [
  | inl e ↦ rw (e, force_assign, after_force)
  | inr (s, e) ↦ rw (e, force_assign, after_force) (classes-set t i s _ e refl)
]

classes-release : (i : ℤ) (t : SlotTable) → classes (release i t) ≡ classes t
unfolding release
classes-release (negsuc i) t = refl
classes-release (pos i) t = elim (Option-cases (get_elem? t i)) [
  | inl e ↦ rw (e, release)
  | inr (s, e) ↦ rw (e, release) (classes-set t i s _ e refl)
]

pub classes-apply : (o : Op) (t : SlotTable) → classes (apply o t) ≡ classes t
unfolding apply release_by_agent
classes-apply (provision now i a p corr) t = classes-assign_provisional now i a p corr t
classes-apply (commit corr) t = classes-commit corr t
classes-apply (revert corr) t = classes-revert corr t
classes-apply (give now i a p) t = classes-assign now i a p t
classes-apply (force now i a p) t = classes-force_assign now i a p t
classes-apply (free i) t = classes-release i t
classes-apply (free_agent a) t = classes-release_from 0 a t

classes-apply_all : (os : List Op) (t : SlotTable) → classes (apply_all os t) ≡ classes t
unfolding apply_all
classes-apply_all [] t = refl
classes-apply_all (o ∷ os) t = classes-apply_all os (apply o t) ∙ classes-apply o t

classes-blanks :
    (n k : ℕ) (c : SlotClass) (t : SlotTable)
    → classes (blanks n k c ++ t) ≡ replicate k c ++ classes t
unfolding blanks
classes-blanks n zero c t = refl
classes-blanks n (suc k) c t = ap (◌∷◌ c) (classes-blanks (suc n) k c t)

classes-blanks_all : (n k : ℕ) (c : SlotClass) → classes (blanks n k c) ≡ replicate k c
unfolding blanks
classes-blanks_all n zero c = refl
classes-blanks_all n (suc k) c = ap (◌∷◌ c) (classes-blanks_all (suc n) k c)

-- Whatever calls follow, the table has its agent-class slots first and its hindsight-class slots
-- behind them, as many of each as it was made with, a negative count being none.
pub history-classes :
    (agents hindsights : ℤ) (os : List Op)
    → classes (apply_all os (new_slot_table_with_classes agents hindsights))
      ≡ replicate (pos_part agents) agent ++ replicate (pos_part hindsights) hindsight
unfolding new_slot_table_with_classes
history-classes agents hindsights os =
    classes-apply_all os _
    ∙ classes-blanks 0 (pos_part agents) agent _
    ∙ ap (◌++◌ (replicate (pos_part agents) agent))
        (classes-blanks_all (pos_part agents) (pos_part hindsights) hindsight)
