-- ===== src/Response/Chain.antt =====
-- `WalkChain` of internal/response/store.go: its rounds, and the chains that it follows.
use mathlib.Core.Path.{subst}
use microagent.Prelude.{
  ℕ, zero, suc, ◌≤◌, ◌<◌, String, ◌≡◌, ◌≢◌, refl, sym, ap, ◌∙◌, Bool, true, false, Option, none,
  some, List, [], ◌∷◌, ◌++◌, reverse, append-nil, append_assoc, length, arith, All, All-mono,
  Bool-cases, Option-cases, ◌⊎◌, inl, inr, if◌then◌else◌,
}
use mathlib.Core.List.{reverse-append}
use microagent.Prelude.Text.{str_eq, eq_iff}
use microagent.Response.{
  Response, Fields, Store, Failure, redis_error, cycle_detected, response_not_found, Result, ok,
  failed, Codec, is_seen, get, visit, walk, walk_chain, lookup, response_key,
}

-- The keys of a map that are not in a list.
abbrev fresh : List String → List (String × Fields) → ℕ
fresh seen [] = 0
fresh seen ((k, v) ∷ m) = let n = fresh seen m in if is_seen k seen then n else suc n

fresh-bound : (seen : List String) (m : List (String × Fields)) → fresh seen m ≤ length m
fresh-bound seen [] = omega arith
fresh-bound seen ((k, v) ∷ m) = ground (arith, fresh-bound seen m)

fresh_le :
    (k : String) (seen : List String) (m : List (String × Fields))
    → fresh (k ∷ seen) m ≤ fresh seen m
unfolding is_seen
fresh_le k seen [] = omega arith
fresh_le k seen ((j, v) ∷ m) = ground (arith, fresh_le k seen m)

fresh_lt :
    (k : String) (seen : List String) (m : List (String × Fields)) {v : Fields}
    → lookup k m ≡ some v
    → is_seen k seen ≡ false
    → fresh (k ∷ seen) m < fresh seen m
unfolding is_seen lookup
fresh_lt k seen [] e h = absurd (cc)
fresh_lt k seen ((j, w) ∷ m) {v} e h = elim (Bool-cases (str_eq j k)) [
  | inl same ↦
      let q : j ≡ k = (eq_iff j k).0 same in
      let out : is_seen j seen ≡ false = subst (λ x. is_seen x seen ≡ false) (sym q) h in
      ground (arith, fresh_le k seen m, eq_iff k j)
  | inr other ↦
      let e' : lookup k m ≡ some v = sym (rw other refl) ∙ e in
      ground (arith, fresh_lt k seen m e' h, eq_iff k j)
]

is_seen-All {κ} :
    (P : String → Type κ) (k : String) (seen : List String)
    → is_seen k seen ≡ true
    → All P seen
    → P k
unfolding is_seen
is_seen-All P k [] e h = absurd (cc)
is_seen-All P k (j ∷ js) e h = elim (Bool-cases (str_eq j k)) [
  | inl same ↦ subst P ((eq_iff j k).0 same) h.0
  | inr other ↦ is_seen-All P k js (sym (rw other refl) ∙ e) h.1
]

module _ (up : String → Bool) (json : Codec) (s : Store) where
  -- The chain from a response, read backward: it ends at a response without a previous one. The
  -- responses are listed in the order of the conversation.
  pub data Chain : String → List Response → Type 0 where
    root : Chain "" []
    turn :
        {id : String} {r : Response} {earlier : List Response}
        → id ≢ ""
        → get up json id s ≡ ok (some r)
        → Chain r.previous_response_id earlier
        → Chain id (earlier ++ (r ∷ []))

  -- The steps backward from one id to another.
  pub data Leads : String → String → Type 0 where
    stay : {id : String} → Leads id id
    back :
        {id last : String} {r : Response}
        → Leads id last
        → last ≢ ""
        → get up json last s ≡ ok (some r)
        → Leads id r.previous_response_id

  -- What breaks the chain of a response.
  pub data Broken (id : String) : Failure → Type 0 where
    cycle :
        {at : String} {r : Response}
        → Leads id at
        → get up json at s ≡ ok (some r)
        → Leads r.previous_response_id at
        → Broken id (cycle_detected at)
    missing :
        {at : String}
        → Leads id at
        → at ≢ ""
        → get up json at s ≡ ok none
        → Broken id (response_not_found at)
    unreadable :
        {at : String} {e : Failure}
        → Leads id at
        → at ≢ ""
        → get up json at s ≡ failed e
        → Broken id e

  get_down : (id : String) → up (response_key id) ≡ false → get up json id s ≡ failed redis_error
  unfolding get
  get_down id q = rw q refl

  get_missing :
      (id : String)
      → up (response_key id) ≡ true
      → lookup id s.responses ≡ none
      → get up json id s ≡ ok none
  unfolding get
  get_missing id q h = rw q (rw h refl)

  -- Only a stored response is read.
  get-lookup :
      (id : String) {r : Response}
      → get up json id s ≡ ok (some r)
      → (v : Fields) × (lookup id s.responses ≡ some v)
  get-lookup id {r} e = elim (Option-cases (lookup id s.responses)) [
    | inr h ↦ h
    | inl h ↦ absurd (elim (Bool-cases (up (response_key id))) [
      | inl q ↦ let g = get_missing id q h in cc
      | inr q ↦ let g = get_down id q in cc
    ])
  ]

  -- A response of the walk so far, from which the walk has come to where it is.
  Seen : String → String → Type 0
  Seen current at =
      (r : Response) × (get up json at s ≡ ok (some r)) × Leads r.previous_response_id current

  abbrev pub Outcome : String → Option (Result (List Response)) → Type 0
  Outcome id out =
      ((rs : List Response) × (out ≡ some (ok rs)) × Chain id rs)
      ⊎ ((e : Failure) × (out ≡ some (failed e)) × Broken id e)

  data Visited (id : String) (seen : List String) (current : String) : Type 0 where
    stops :
        {e : Failure}
        → visit up json s seen current ≡ failed e
        → Broken id e
        → Visited id seen current
    goes :
        {r : Response}
        → visit up json s seen current ≡ ok r
        → get up json current s ≡ ok (some r)
        → fresh (current ∷ seen) s.responses < fresh seen s.responses
        → Visited id seen current

  visit_cases :
      (id : String) (seen : List String) (current : String)
      → current ≢ ""
      → Leads id current
      → All (Seen current) seen
      → Visited id seen current
  unfolding visit Seen
  visit_cases id seen current ne l h = elim (Bool-cases (is_seen current seen)) [
    | inl q ↦
        let (r, g, back_here) = is_seen-All (Seen current) current seen q h in
        stops (rw q refl) (cycle l g back_here)
    | inr q ↦ with_answer q (get up json current s) refl
  ]
    where
      with_answer :
          is_seen current seen ≡ false
          → (answer : Result (Option Response)) → get up json current s ≡ answer
          → Visited id seen current
      with_answer q (failed e) g = stops (rw q (rw g refl)) (unreadable l ne g)
      with_answer q (ok none) g = stops (rw q (rw g refl)) (missing l ne g)
      with_answer q (ok (some r)) g =
          let (v, k) = get-lookup current g in
          goes (rw q (rw g refl)) g (fresh_lt current seen s.responses k q)

  walk_lem :
      (fuel : ℕ) (id : String) (seen : List String) (chain : List Response) (current : String)
      → fresh seen s.responses < fuel
      → All (Seen current) seen
      → Leads id current
      → ((e : List Response) → Chain current e → Chain id (e ++ reverse chain))
      → Outcome id (walk up json fuel s seen chain current)
  unfolding walk Seen
  walk_lem zero id seen chain current lt h l c = absurd (omega (arith, lt))
  walk_lem (suc fuel) id seen chain current lt h l c = elim (Bool-cases (str_eq current "")) [
    | inl q ↦
        let q' : current ≡ "" = (eq_iff current "").0 q in
        rw (q, walk) (inl (reverse chain, refl, c [] (subst (λ x. Chain x []) (sym q') root)))
    | inr q ↦
        let ne : current ≢ "" = ground (arith, eq_iff current "") in
        elim (visit_cases id seen current ne l h) [
          | stops {e} v b ↦ rw (q, v, walk) (inr (e, refl, b))
          | goes {r} v g smaller ↦
              rw (q, v, walk)
                (walk_lem fuel id (current ∷ seen) (chain ++ (r ∷ [])) r.previous_response_id
                  (omega (arith, lt, smaller))
                  (
                    (r, g, stay),
                    All-mono (Seen current) (Seen r.previous_response_id) seen
                        (λ at (x, gx, lx). (x, gx, back lx ne g)) h,
                  )
                  (back l ne g)
                  (λ e k.
                    subst (Chain id)
                      (append_assoc e (r ∷ []) (reverse chain)
                        ∙ ap (e ++◌) (sym (reverse-append chain (r ∷ []))))
                      (c (e ++ (r ∷ [])) (turn ne g k))))
        ]
  ]

-- Following the previous responses always comes to an end, within as many rounds as there are
-- stored responses and two more: with the whole chain, the first response first, or with the error
-- that names what breaks it, which is a response that leads back to itself, one that is not stored,
-- or one that cannot be read.
pub walk_chain_lem :
    (up : String → Bool) (json : Codec) (s : Store) (id : String)
    → Outcome up json s id (walk_chain up json s id)
unfolding walk_chain
walk_chain_lem up json s id =
    walk_lem up json s (suc (suc (length s.responses))) id [] [] id
      (omega (arith, fresh-bound [] s.responses)) tt stay
      (λ e k. subst (Chain up json s id) (sym (append-nil e)) k)
