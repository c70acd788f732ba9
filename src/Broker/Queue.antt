-- ===== src/Broker/Queue.antt =====
-- `assignFromQueue` of internal/broker/broker.go: which waiting request is served.
use microagent.Prelude.{
  ℕ, suc, ◌+◌, ◌≡◌, ◌≢◌, refl, sym, subst, ap, true, false, Option, none, some, List, [], ◌∷◌,
  arith, get_elem?, take, All, All-mono, Bool-cases, Option-cases, ◌⊎◌, inl, inr,
}
use microagent.Prelude.Int.{◌≤ℤ◌, ◌<ℤ◌}
use microagent.Slots.{SlotClass, SlotTable, find_unassigned}
use microagent.Slots.WellFormed.{WellFormed}
use microagent.Slots.Find.{IsFree, FoundAt, find_unassigned_first}
use microagent.Broker.{SlotRequest, Choice, beats, consider, best_request}

-- A request whose class has a free slot.
abbrev Servable : SlotTable → SlotRequest → Type 0
Servable t r = find_unassigned r.class t ≢ none

-- The first of the servable requests with the smallest priority number, in a queue from index `n`
-- on.
record Best (t : SlotTable) (n : ℕ) (q : List SlotRequest) (c : Choice) : Type 0 where
  position : ℕ
  number : c.index ≡ n + position
  at : get_elem? q position ≡ some c.request
  has_slot : find_unassigned c.request.class t ≡ some c.slot
  before_earlier : All (λ r. Servable t r → c.request.priority <ℤ r.priority) (take position q)
  before_all : All (λ r. Servable t r → c.request.priority ≤ℤ r.priority) q

module _ (t : SlotTable) where
  abbrev Kept : Option Choice → List SlotRequest → Type 0
  Kept best q = All (λ r. Servable t r → beats r best ≡ false) q

  abbrev Outcome : ℕ → Option Choice → List SlotRequest → Option Choice → Type 0
  Outcome n best q r =
      ((r ≡ best) × Kept best q)
      ⊎ ((c : Choice) × (r ≡ some c) × Best t n q c × (beats c.request best ≡ true))

  push :
      (n : ℕ) (r : SlotRequest) (q : List SlotRequest) (c : Choice)
      → Best t (suc n) q c
      → (Servable t r → c.request.priority <ℤ r.priority)
      → Best t n (r ∷ q) c
  push n r q c b lt = record {
    position = suc b.position;
    number = omega (arith, b.number);
    at = b.at;
    has_slot = b.has_slot;
    before_earlier = (lt, b.before_earlier);
    before_all = (λ k. let h = lt k in omega arith, b.before_all);
  }

  gap :
      (best : Option Choice) (r x : SlotRequest)
      → beats r best ≡ false
      → beats x best ≡ true
      → x.priority <ℤ r.priority
  gap none r x h k = cc
  gap (some c) r x h k = ground arith

  beats_trans :
      (best : Option Choice) (r x : SlotRequest)
      → beats r best ≡ true
      → x.priority <ℤ r.priority
      → beats x best ≡ true
  beats_trans none r x h k = refl
  beats_trans (some c) r x h k = ground arith

  choice_of : ℕ → ℕ → SlotRequest → Choice
  choice_of n sid r = record { index = n; slot = sid; request = r }

  taken :
      (n sid : ℕ) (r : SlotRequest) (q : List SlotRequest) (best : Option Choice)
      {out : Option Choice}
      → find_unassigned r.class t ≡ some sid
      → beats r best ≡ true
      → Outcome (suc n) (some (choice_of n sid r)) q out
      → Outcome n best (r ∷ q) out
  unfolding choice_of
  taken n sid r q best f better (inl (e, kept)) = inr (
    choice_of n sid r,
    e,
    record {
      position = 0;
      number = omega arith;
      at = refl;
      has_slot = f;
      before_earlier = tt;
      before_all = (λ _. omega arith, All-mono _ _ q (λ x h k. let b = h k in ground arith) kept);
    },
    better,
  )
  taken n sid r q best f better (inr (c, e, b, more)) =
      let lt : c.request.priority <ℤ r.priority = ground arith in
      inr (c, e, push n r q c b (λ _. lt), beats_trans best r c.request better lt)

  passed :
      (n : ℕ) (r : SlotRequest) (q : List SlotRequest) (best : Option Choice) {out : Option Choice}
      → (Servable t r → beats r best ≡ false)
      → Outcome (suc n) best q out
      → Outcome n best (r ∷ q) out
  passed n r q best worse (inl (e, kept)) = inl (e, (worse, kept))
  passed n r q best worse (inr (c, e, b, more)) =
      inr (c, e, push n r q c b (λ s. gap best r c.request (worse s) more), more)

  next_cons :
      (n : ℕ) (r : SlotRequest) (q : List SlotRequest) (best next : Option Choice)
      → consider n r (find_unassigned r.class t) best ≡ next
      → best_request t (suc n) next q ≡ best_request t n best (r ∷ q)
  unfolding best_request
  next_cons n r q best next e = ap (λ b. best_request t (suc n) b q) (sym e)

  best_request_lem :
      (n : ℕ) (best : Option Choice) (q : List SlotRequest)
      → Outcome n best q (best_request t n best q)
  unfolding best_request choice_of
  best_request_lem n best [] = inl (refl, tt)
  best_request_lem n best (r ∷ q) = elim (Option-cases (find_unassigned r.class t)) [
    | inl e ↦
        subst (Outcome n best (r ∷ q)) (next_cons n r q best best (rw e))
          (passed n r q best (λ s. absurd (s e)) (best_request_lem (suc n) best q))
    | inr (sid, e) ↦ elim (Bool-cases (beats r best)) [
      | inl better ↦
          subst (Outcome n best (r ∷ q))
            (next_cons n r q best (some (choice_of n sid r)) (rw (e, better)))
            (taken n sid r q best e better (best_request_lem (suc n) (some (choice_of n sid r)) q))
      | inr worse ↦
          subst (Outcome n best (r ∷ q)) (next_cons n r q best best (rw (e, worse)))
            (passed n r q best (λ _. worse) (best_request_lem (suc n) best q))
    ]
  ]

-- A free slot of the class.
abbrev pub AnyFree : SlotClass → SlotTable → Type 0
AnyFree c [] = ⊥
AnyFree c (s ∷ t) = IsFree c s ⊎ AnyFree c t

none_free : (c : SlotClass) (t : SlotTable) → All (λ s. ¬ IsFree c s) t → ¬ AnyFree c t
none_free c [] all free = free
none_free c (s ∷ t) all (inl h) = all.0 h
none_free c (s ∷ t) all (inr h) = none_free c t all.1 h

AnyFree-Servable :
    (t : SlotTable) (r : SlotRequest) → WellFormed 0 t → AnyFree r.class t → Servable t r
AnyFree-Servable t r w free = elim (find_unassigned_first r.class t w) [
  | inl (e, all) ↦ absurd (none_free r.class t all free)
  | inr (i, e, f) ↦ λ n. absurd (cc)
]

-- The chosen request and its slot: it waits at its index, the slot is the first free one of its
-- class, and no request with a free slot of its class has a smaller priority number, or the same
-- one and an earlier place.
pub record BestRequest (t : SlotTable) (q : List SlotRequest) (c : Choice) : Type 0 where
  pub at : get_elem? q c.index ≡ some c.request
  pub slot : FoundAt c.request.class 0 t c.slot
  pub before_earlier :
      All (λ r. AnyFree r.class t → c.request.priority <ℤ r.priority) (take c.index q)
  pub before_all : All (λ r. AnyFree r.class t → c.request.priority ≤ℤ r.priority) q

module _ (t : SlotTable) (w : WellFormed 0 t) where
  found_slot : (c : SlotClass) (k : ℕ) → find_unassigned c t ≡ some k → FoundAt c 0 t k
  found_slot c k e = elim (find_unassigned_first c t w) [
    | inl (n, _) ↦ absurd (cc)
    | inr (i, h, f) ↦ let same : i ≡ k = cc in subst (FoundAt c 0 t) same f
  ]

  Best-BestRequest : (q : List SlotRequest) (c : Choice) → Best t 0 q c → BestRequest t q c
  Best-BestRequest q c b =
      let n : b.position ≡ c.index = omega (arith, b.number) in
      record {
        at = subst (λ i. get_elem? q i ≡ some c.request) n b.at;
        slot = found_slot c.request.class c.slot b.has_slot;
        before_earlier =
            subst (λ i. All (λ r. AnyFree r.class t → c.request.priority <ℤ r.priority) (take i q))
              n
              (All-mono _ _ (take b.position q) (λ r h free. h (AnyFree-Servable t r w free))
                b.before_earlier);
        before_all = All-mono _ _ q (λ r h free. h (AnyFree-Servable t r w free)) b.before_all;
      }

  -- On a well-formed table, the waiting request to serve is, of those whose class has a free slot,
  -- the one with the smallest priority number, the longest waiting among equals, with the first free
  -- slot of its class; when no waiting request has a free slot of its class, none is chosen.
  pub best_request_min :
      (q : List SlotRequest)
      → ((best_request t 0 none q ≡ none) × All (λ r. ¬ AnyFree r.class t) q)
        ⊎ ((c : Choice) × (best_request t 0 none q ≡ some c) × BestRequest t q c)
  best_request_min q = elim (best_request_lem t 0 none q) [
    | inl (e, kept) ↦ inl (
      e,
      All-mono _ _ q (λ r h free. let b = h (AnyFree-Servable t r w free) in ground (arith, b))
          kept,
    )
    | inr (c, e, b, _) ↦ inr (c, e, Best-BestRequest q c b)
  ]
