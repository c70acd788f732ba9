-- ===== src/Slots/Find.antt =====
-- `FindUnassigned` of internal/broker/slots.go against its description.
use microagent.Prelude.{
  ℕ, suc, ◌+◌, ◌≡◌, refl, true, false, ◌&&◌, none, some, [], ◌∷◌, arith, get_elem?, take, All,
  Bool-cases, ◌⊎◌, inl, inr,
}
use microagent.Slots.{
  SlotClass, SlotEntry, SlotTable, class_eq, unassigned, is_unassigned, find_unassigned,
}
use microagent.Slots.WellFormed.{WellFormed}

pub class_eq→eq : (c d : SlotClass) → class_eq c d ≡ true → c ≡ d
class_eq→eq c d h = ground arith

pub class_eq_refl : (c : SlotClass) → class_eq c c ≡ true
class_eq_refl c = ground arith

pub record IsFree (c : SlotClass) (s : SlotEntry) : Type 0 where
  pub of_class : s.class ≡ c
  pub vacant : s.state ≡ unassigned

IsFree-test :
    (c : SlotClass) (s : SlotEntry)
    → ((class_eq s.class c && is_unassigned s.state) ≡ true)
    → IsFree c s
IsFree-test c s h = ground (arith, class_eq→eq s.class c)

IsFree-test_false :
    (c : SlotClass) (s : SlotEntry)
    → ((class_eq s.class c && is_unassigned s.state) ≡ false)
    → ¬ IsFree c s
IsFree-test_false c s h f = ground (arith, class_eq_refl c, f.of_class, f.vacant)

-- The first free slot of the class, at an index that the entries from `n` on give it.
pub record FoundAt (c : SlotClass) (n : ℕ) (t : SlotTable) (i : ℕ) : Type 0 where
  pub index : ℕ
  pub entry : SlotEntry
  pub number : i ≡ n + index
  pub at : get_elem? t index ≡ some entry
  pub is_free : IsFree c entry
  pub first : All (λ s. ¬ IsFree c s) (take index t)

find_from :
    (c : SlotClass) (n : ℕ) (t : SlotTable)
    → WellFormed n t
    → ((find_unassigned c t ≡ none) × All (λ s. ¬ IsFree c s) t)
      ⊎ ((i : ℕ) × (find_unassigned c t ≡ some i) × FoundAt c n t i)
unfolding find_unassigned
find_from c n [] w = inl (refl, tt)
find_from c n (s ∷ t) w = elim (Bool-cases (class_eq s.class c && is_unassigned s.state)) [
  | inl h ↦ inr (
    s.slot_id,
    rw h,
    record {
      index = 0;
      entry = s;
      number = omega arith;
      at = refl;
      is_free = IsFree-test c s h;
      first = tt;
    },
  )
  | inr h ↦ elim (find_from c (suc n) t w.2) [
    | inl (e, all) ↦ inl (rw h e, (IsFree-test_false c s h, all))
    | inr (i, e, f) ↦ inr (
      i,
      rw h e,
      record {
        index = suc f.index;
        entry = f.entry;
        number = omega (arith, f.number);
        at = f.at;
        is_free = f.is_free;
        first = (IsFree-test_false c s h, f.first);
      },
    )
  ]
]

-- On a well-formed table the search returns the lowest-numbered free slot of the class, and returns
-- nothing exactly when the class has no free slot.
pub find_unassigned_first :
    (c : SlotClass) (t : SlotTable)
    → WellFormed 0 t
    → ((find_unassigned c t ≡ none) × All (λ s. ¬ IsFree c s) t)
      ⊎ ((i : ℕ) × (find_unassigned c t ≡ some i) × FoundAt c 0 t i)
find_unassigned_first c t w = find_from c 0 t w
