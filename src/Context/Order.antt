-- ===== src/Context/Order.antt =====
-- `Assemble` of internal/context/assembler.go: the order of the memories.
use microagent.Prelude.{
  ◌≡◌, refl, ap, ◌∙◌, Bool, true, false, ◌&&◌, not, List, [], ◌∷◌, All, All-mono, arith, Bool-cases,
  inl, inr, if◌then◌else◌,
}
use microagent.Context.{Memory, insert_memory, sort_memories}

-- What the order of `float64` does for scores that are numbers.
pub record IsOrder {S : Type 0} (higher : S → S → Bool) : Type 0 where
  pub asymmetric : (a b : S) → higher a b ≡ true → higher b a ≡ false
  pub not_higher_trans : (a b c : S) → higher a b ≡ false → higher b c ≡ false → higher a c ≡ false

swap :
    {A : Type 0} (m n : A) (xs : List A) (a b : Bool)
    → (a ≡ true → b ≡ false)
    → (if b then n ∷ (if a then m ∷ xs else xs) else if a then m ∷ xs else xs)
      ≡ (if a then m ∷ (if b then n ∷ xs else xs) else if b then n ∷ xs else xs)
swap m n xs true true h = absurd (let q = h refl in cc)
swap m n xs true false h = refl
swap m n xs false b h = refl

module _ {S : Type 0} (higher : S → S → Bool) where
  -- No memory has a higher score than one before it.
  abbrev pub Descending : List (Memory S) → Type 0
  Descending [] = Unit
  Descending (m ∷ ms) = All (λ n. higher n.score m.score ≡ false) ms × Descending ms

  abbrev pub same_score : S → Memory S → Bool
  same_score s m = not (higher m.score s) && not (higher s m.score)

  -- The memories of a score, in order.
  abbrev pub of_score : S → List (Memory S) → List (Memory S)
  of_score s [] = []
  of_score s (m ∷ ms) = if same_score s m then m ∷ of_score s ms else of_score s ms

  insert_memory-All :
      (P : Memory S → Type 0) (m : Memory S) (ns : List (Memory S))
      → P m
      → All P ns
      → All P (insert_memory higher m ns)
  unfolding insert_memory
  insert_memory-All P m [] p h = (p, h)
  insert_memory-All P m (n ∷ ns) p h = elim (Bool-cases (higher n.score m.score)) [
    | inl e ↦ rw e (h.0, insert_memory-All P m ns p h.1)
    | inr e ↦ rw e (p, h)
  ]

  module _ (order : IsOrder higher) where
    insert_memory-Descending :
        (m : Memory S) (ns : List (Memory S))
        → Descending ns
        → Descending (insert_memory higher m ns)
    unfolding insert_memory
    insert_memory-Descending m [] h = (tt, tt)
    insert_memory-Descending m (n ∷ ns) h = elim (Bool-cases (higher n.score m.score)) [
      | inl e ↦ rw e (
        insert_memory-All (λ x. higher x.score n.score ≡ false) m ns
            (order.asymmetric n.score m.score e) h.0,
        insert_memory-Descending m ns h.1,
      )
      | inr e ↦ rw e (
        (
          e,
          All-mono (λ x. higher x.score n.score ≡ false) (λ x. higher x.score m.score ≡ false) ns
              (λ x k. order.not_higher_trans x.score n.score m.score k e) h.0,
        ),
        h,
      )
    ]

    -- Of two memories of one score neither is higher.
    same_score_apart :
        (s : S) (m n : Memory S)
        → higher n.score m.score ≡ true
        → same_score s m ≡ true
        → same_score s n ≡ false
    same_score_apart s m n e h = elim (Bool-cases (same_score s n)) [
      | inr k ↦ k
      | inl k ↦
          let ns : higher n.score s ≡ false = ground arith in
          let sm : higher s m.score ≡ false = ground arith in
          let q = order.not_higher_trans n.score s m.score ns sm in absurd (cc)
    ]

    of_score-insert_memory :
        (s : S) (m : Memory S) (ns : List (Memory S))
        → of_score s (insert_memory higher m ns) ≡ of_score s (m ∷ ns)
    unfolding insert_memory
    of_score-insert_memory s m [] = refl
    of_score-insert_memory s m (n ∷ ns) = elim (Bool-cases (higher n.score m.score)) [
      | inr e ↦ rw e refl
      | inl e ↦ rw e (
          ap (λ xs. if same_score s n then n ∷ xs else xs) (of_score-insert_memory s m ns)
          ∙ swap m n (of_score s ns) (same_score s m) (same_score s n) (same_score_apart s m n e))
    ]

    -- When "higher" is an order of the scores, as it is for numbers, the memories are listed with
    -- no higher score after a lower one, each of them once, and those of one score in the order in
    -- which they were recalled.
    pub sort_memories_lem :
        (ms : List (Memory S))
        → Descending (sort_memories higher ms)
          × ((s : S) → of_score s (sort_memories higher ms) ≡ of_score s ms)
    unfolding sort_memories
    sort_memories_lem [] = (tt, λ s. refl)
    sort_memories_lem (m ∷ ms) =
        let (d, k) = sort_memories_lem ms in
        (
          insert_memory-Descending m (sort_memories higher ms) d,
          λ s.
              of_score-insert_memory s m (sort_memories higher ms)
              ∙ ap (λ xs. if same_score s m then m ∷ xs else xs) (k s),
        )
