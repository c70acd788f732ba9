-- ===== src/Slots/TwoPhase.antt =====
-- The two-phase assignment of internal/broker/slots.go: provisional, then committed or reverted.
use microagent.Prelude.{
  ℕ, zero, suc, ◌+◌, ◌≡◌, refl, ap, true, false, none, some, [], ◌∷◌, arith, get_elem?, set, All,
  inl, inr, String,
}
use microagent.Prelude.Int.{ℤ, pos}
use microagent.Prelude.Text.{eq_refl}
use microagent.Slots.{
  SlotClass, SlotEntry, SlotTable, unassigned, blank, awaits, provisional_entry, assigned_entry,
  assign_provisional, commit_assignment, revert_provisional,
}
use microagent.Slots.WellFormed.{WellFormed, assign_provisional_cases}

-- No provisional slot waits for an acknowledgement under this correlation.
abbrev pub IsFresh : String → SlotTable → Type 0
IsFresh corr t = All (λ s. awaits corr s ≡ false) t

pub commit_unmatched :
    (corr : String) (t : SlotTable) → IsFresh corr t → commit_assignment corr t ≡ (t, none)
unfolding commit_assignment
commit_unmatched corr [] f = refl
commit_unmatched corr (s ∷ t) f = rw (commit_unmatched corr t f.1, f.0)

pub revert_unmatched :
    (corr : String) (t : SlotTable) → IsFresh corr t → revert_provisional corr t ≡ (t, none)
unfolding revert_provisional
revert_unmatched corr [] f = refl
revert_unmatched corr (s ∷ t) f = rw (revert_unmatched corr t f.1, f.0)

pub commit-set :
    (t : SlotTable) (i k now : ℕ) (c : SlotClass) (a : String) (p : ℤ) (corr : String)
    {s : SlotEntry}
    → IsFresh corr t
    → get_elem? t i ≡ some s
    → commit_assignment corr (set t i (provisional_entry k c a p corr now))
      ≡ (set t i (assigned_entry k c a p now), some k)
unfolding commit_assignment
commit-set [] i k now c a p corr f g = cc
commit-set (s ∷ t) zero k now c a p corr f g = rw (eq_refl corr)
commit-set (s ∷ t) (suc i) k now c a p corr f g = rw (f.0, commit-set t i k now c a p corr f.1 g)

revert-set :
    (t : SlotTable) (i k now : ℕ) (c : SlotClass) (a : String) (p : ℤ) (corr : String)
    {s : SlotEntry}
    → IsFresh corr t
    → get_elem? t i ≡ some s
    → revert_provisional corr (set t i (provisional_entry k c a p corr now))
      ≡ (set t i (blank k c), some k)
unfolding revert_provisional
revert-set [] i k now c a p corr f g = cc
revert-set (s ∷ t) zero k now c a p corr f g = rw (eq_refl corr)
revert-set (s ∷ t) (suc i) k now c a p corr f g = rw (f.0, revert-set t i k now c a p corr f.1 g)

-- Putting back the blank entry of a free slot changes nothing.
pub set-blank :
    (n : ℕ) (t : SlotTable) (i k : ℕ) (s : SlotEntry)
    → WellFormed n t
    → get_elem? t i ≡ some s
    → s.state ≡ unassigned
    → k ≡ n + i
    → set t i (blank k s.class) ≡ t
set-blank n [] i k s w g u e = refl
set-blank n (x ∷ t) zero k s w g u e =
    ground (arith, w.1.agent_blank, w.1.priority_blank, w.1.time_blank, w.1.correlation_blank)
set-blank n (x ∷ t) (suc i) k s w g u e =
    ap (◌∷◌ x) (set-blank (suc n) t i k s w.2 g u (omega arith))

IsFresh-set :
    (corr : String) (t : SlotTable) (i : ℕ) (e : SlotEntry)
    → IsFresh corr t
    → awaits corr e ≡ false
    → IsFresh corr (set t i e)
IsFresh-set corr [] i e f h = tt
IsFresh-set corr (s ∷ t) zero e f h = (h, f.1)
IsFresh-set corr (s ∷ t) (suc i) e f h = (f.0, IsFresh-set corr t i e f.1 h)

-- A provisional assignment under a fresh correlation that is reverted (its reply could not be sent,
-- or its acknowledgement did not come in time) leaves the table exactly as it was before.
pub revert-assign_provisional :
    (now : ℕ) (i : ℤ) (a : String) (p : ℤ) (corr : String) (t t' : SlotTable)
    → WellFormed 0 t
    → IsFresh corr t
    → assign_provisional now i a p corr t ≡ (t', true)
    → (k : ℕ) × (i ≡ pos k) × (revert_provisional corr t' ≡ (t, some k))
revert-assign_provisional now i a p corr t t' w f h =
    elim (assign_provisional_cases now i a p corr t) [
      | inl e ↦ absurd (cc)
      | inr (k, s, ik, g, u, e) ↦
          let q : t' ≡ set t k (provisional_entry k s.class a p corr now) = cc in
          (
            k,
            ik,
            rw (
              q,
              revert-set t k k now s.class a p corr f g,
              set-blank 0 t k k s w g u (omega arith),
            ),
          )
    ]

-- An acknowledgement under a fresh correlation commits exactly the slot that was provisionally
-- assigned, to the same agent at the same priority and time, and the reclaim timer of that
-- correlation then finds nothing to revert.
pub commit-assign_provisional :
    (now : ℕ) (i : ℤ) (a : String) (p : ℤ) (corr : String) (t t' : SlotTable)
    → IsFresh corr t
    → assign_provisional now i a p corr t ≡ (t', true)
    → (k : ℕ) × (c : SlotClass) × (i ≡ pos k)
      × (commit_assignment corr t' ≡ (set t k (assigned_entry k c a p now), some k))
      × (revert_provisional corr (commit_assignment corr t').0
          ≡ ((commit_assignment corr t').0, none))
commit-assign_provisional now i a p corr t t' f h =
    elim (assign_provisional_cases now i a p corr t) [
      | inl e ↦ absurd (cc)
      | inr (k, s, ik, g, u, e) ↦
          let q : t' ≡ set t k (provisional_entry k s.class a p corr now) = cc in
          let done = commit-set t k k now s.class a p corr f g in
          (
            k,
            s.class,
            ik,
            rw (q, done),
            rw (q, done) (revert_unmatched corr _ (IsFresh-set corr t k _ f refl)),
          )
    ]
