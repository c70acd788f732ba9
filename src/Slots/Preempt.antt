-- ===== src/Slots/Preempt.antt =====
-- The choice of a slot to preempt, `FindLowestPriorityPreemptible` of internal/broker/slots.go.
use microagent.Prelude.{
  ℕ, suc, ◌≡◌, refl, ap, sym, subst, Bool, true, false, ◌&&◌, Option, none, some, [], ◌∷◌, arith,
  get_elem?, take, All, All-mono, Bool-cases, ◌⊎◌, inl, inr, String, if◌then◌else◌,
}
use microagent.Prelude.Int.{◌≤ℤ◌, ◌<ℤ◌}
use microagent.Slots.{
  SlotClass, SlotEntry, SlotTable, Victim, victim_of, improves, is_candidate, best_victim,
  find_lowest_priority_preemptible,
}

improves_trans :
    (best : Option Victim) (s e : SlotEntry)
    → improves best s ≡ true
    → s.priority <ℤ e.priority
    → improves best e ≡ true
improves_trans none s e h k = refl
improves_trans (some v) s e h k = ground arith

improves_gap :
    (best : Option Victim) (s e : SlotEntry)
    → improves best s ≡ false
    → improves best e ≡ true
    → s.priority <ℤ e.priority
improves_gap none s e h k = cc
improves_gap (some v) s e h k = ground arith

not-improves :
    (s e : SlotEntry) → improves (some (victim_of s)) e ≡ false → e.priority ≤ℤ s.priority
not-improves s e h = ground arith

improves→lt : (s e : SlotEntry) → improves (some (victim_of s)) e ≡ true → s.priority <ℤ e.priority
improves→lt s e h = ground arith

module _ (c : SlotClass) (is_preemptible : String → Bool) where
  abbrev pub Candidate : SlotEntry → Type 0
  Candidate s = is_candidate c is_preemptible s ≡ true

  -- The first candidate of the largest priority number.
  pub record Chosen (t : SlotTable) (v : Victim) : Type 0 where
    pub index : ℕ
    pub entry : SlotEntry
    pub at : get_elem? t index ≡ some entry
    pub candidate : Candidate entry
    pub is_victim : v ≡ victim_of entry
    pub above_earlier : All (λ s. Candidate s → s.priority <ℤ entry.priority) (take index t)
    pub above_all : All (λ s. Candidate s → s.priority ≤ℤ entry.priority) t

  abbrev Kept : Option Victim → SlotTable → Type 0
  Kept best t = All (λ s. Candidate s → improves best s ≡ false) t

  abbrev Outcome : Option Victim → SlotTable → Option Victim → Type 0
  Outcome best t r =
      ((r ≡ best) × Kept best t)
      ⊎ ((v : Victim) × (r ≡ some v) × (ch : Chosen t v) × (improves best ch.entry ≡ true))

  push :
      (s : SlotEntry) (t : SlotTable) (v : Victim) (ch : Chosen t v)
      → (Candidate s → s.priority <ℤ ch.entry.priority)
      → Chosen (s ∷ t) v
  push s t v ch lt = record {
    index = suc ch.index;
    entry = ch.entry;
    at = ch.at;
    candidate = ch.candidate;
    is_victim = ch.is_victim;
    above_earlier = (lt, ch.above_earlier);
    above_all = (λ k. let h = lt k in omega arith, ch.above_all);
  }

  taken :
      (s : SlotEntry) (t : SlotTable) (best : Option Victim) {r : Option Victim}
      → Candidate s
      → improves best s ≡ true
      → Outcome (some (victim_of s)) t r
      → Outcome best (s ∷ t) r
  unfolding push
  taken s t best cand better (inl (e, kept)) = inr (
    victim_of s,
    e,
    record {
      index = 0;
      entry = s;
      at = refl;
      candidate = cand;
      is_victim = refl;
      above_earlier = tt;
      above_all = (λ _. omega arith, All-mono _ _ t (λ x h k. not-improves s x (h k)) kept);
    },
    better,
  )
  taken s t best cand better (inr (v, e, ch, more)) =
      let lt = improves→lt s ch.entry more in
      inr (v, e, push s t v ch (λ _. lt), improves_trans best s ch.entry better lt)

  passed :
      (s : SlotEntry) (t : SlotTable) (best : Option Victim) {r : Option Victim}
      → improves best s ≡ false
      → Outcome best t r
      → Outcome best (s ∷ t) r
  unfolding push
  passed s t best worse (inl (e, kept)) = inl (e, (λ _. worse, kept))
  passed s t best worse (inr (v, e, ch, more)) =
      inr (v, e, push s t v ch (λ _. improves_gap best s ch.entry worse more), more)

  skipped :
      (s : SlotEntry) (t : SlotTable) (best : Option Victim) {r : Option Victim}
      → is_candidate c is_preemptible s ≡ false
      → Outcome best t r
      → Outcome best (s ∷ t) r
  unfolding push
  skipped s t best unfit (inl (e, kept)) = inl (e, (λ k. cc, kept))
  skipped s t best unfit (inr (v, e, ch, more)) = inr (v, e, push s t v ch (λ k. absurd (cc)), more)

  next_cons :
      (s : SlotEntry) (t : SlotTable) (best next : Option Victim)
      → (if is_candidate c is_preemptible s && improves best s then some (victim_of s) else best)
        ≡ next
      → best_victim c is_preemptible next t ≡ best_victim c is_preemptible best (s ∷ t)
  unfolding best_victim
  next_cons s t best next e = ap (λ b. best_victim c is_preemptible b t) (sym e)

  best_victim_lem :
      (best : Option Victim) (t : SlotTable) → Outcome best t (best_victim c is_preemptible best t)
  unfolding best_victim
  best_victim_lem best [] = inl (refl, tt)
  best_victim_lem best (s ∷ t) = elim (Bool-cases (is_candidate c is_preemptible s)) [
    | inl cand ↦ elim (Bool-cases (improves best s)) [
      | inl better ↦
          subst (Outcome best (s ∷ t)) (next_cons s t best (some (victim_of s)) (rw (cand, better)))
            (taken s t best cand better (best_victim_lem (some (victim_of s)) t))
      | inr worse ↦
          subst (Outcome best (s ∷ t)) (next_cons s t best best (rw (cand, worse)))
            (passed s t best worse (best_victim_lem best t))
    ]
    | inr unfit ↦
        subst (Outcome best (s ∷ t)) (next_cons s t best best (rw unfit))
          (skipped s t best unfit (best_victim_lem best t))
  ]

  -- The victim's priority number is the largest among the assigned slots of the class whose agent
  -- is preemptible, and it is the first slot with that number; with no such slot there is no
  -- victim.
  pub find_lowest_priority_preemptible_max :
      (t : SlotTable)
      → ((find_lowest_priority_preemptible c is_preemptible t ≡ none) × All (λ s. ¬ Candidate s) t)
        ⊎ ((v : Victim) × (find_lowest_priority_preemptible c is_preemptible t ≡ some v)
            × Chosen t v)
  unfolding find_lowest_priority_preemptible
  find_lowest_priority_preemptible_max t = elim (best_victim_lem none t) [
    | inl (e, kept) ↦ inl (e, All-mono _ _ t (λ s h k. ground (arith, h k)) kept)
    | inr (v, e, ch, _) ↦ inr (v, e, ch)
  ]
