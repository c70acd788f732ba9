-- ===== src/Broker/Sse/Sorted.antt =====
-- The order in which `readSSEStream` of internal/broker/broker.go sends the tool calls.
use microagent.Prelude.{
  String, ◌≡◌, ◌≢◌, refl, sym, subst, ap, ◌∙◌, false, Option, none, some, List, [], ◌∷◌, map, arith,
  Bool-cases, inl, inr, if◌then◌else◌, All, All-mono,
}
use microagent.Prelude.Int.{ℤ, eqb_ℤ, eqb_ℤ_iff, ltb_ℤ, ◌<ℤ◌}
use microagent.Broker.Llm.{ToolCall}
use microagent.Broker.Sse.{
  Fragment, Chunk, Acc, Accs, put_fragment, put_fragments, scan, insert_sorted, sort_accs, call_of,
  read_sse_stream,
}
use microagent.Broker.Sse.Assembly.{
  at_index, deltas, tokens_of, fragments_of, scan_lem, scan-spelled, of_index, spelled,
}

-- The indices differ.
abbrev pub Distinct : Accs → Type 0
Distinct [] = Unit
Distinct (x ∷ xs) = All (λ y. y.0 ≢ x.0) xs × Distinct xs

-- The indices rise.
abbrev pub Rising : Accs → Type 0
Rising [] = Unit
Rising (x ∷ xs) = All (λ y. x.0 <ℤ y.0) xs × Rising xs

differs-put :
    (j : ℤ) (f : Fragment) (accs : Accs)
    → j ≢ f.index
    → All (λ y. y.0 ≢ j) accs
    → All (λ y. y.0 ≢ j) (put_fragment f accs)
unfolding put_fragment
differs-put j f [] h d = (λ e. h (sym e), tt)
differs-put j f ((i, a) ∷ accs) h d = ground (arith, differs-put j f accs h d.1)

Distinct-put : (f : Fragment) (accs : Accs) → Distinct accs → Distinct (put_fragment f accs)
unfolding put_fragment
Distinct-put f [] d = (tt, tt)
Distinct-put f ((i, a) ∷ accs) d = elim (Bool-cases (eqb_ℤ i f.index)) [
  | inl same ↦ rw same d
  | inr other ↦ rw other (
    differs-put i f accs (λ e. let q = (eqb_ℤ_iff i f.index).1 e in cc) d.0,
    Distinct-put f accs d.1,
  )
]

Distinct-put_all :
    (fs : List Fragment) (accs : Accs) → Distinct accs → Distinct (put_fragments fs accs)
unfolding put_fragments
Distinct-put_all [] accs d = d
Distinct-put_all (f ∷ fs) accs d = Distinct-put_all fs (put_fragment f accs) (Distinct-put f accs d)

All-insert :
    (P : ℤ × Acc → Type 0) (x : ℤ × Acc) (xs : Accs) → P x → All P xs → All P (insert_sorted x xs)
unfolding insert_sorted
All-insert P x [] p h = (p, tt)
All-insert P x (y ∷ ys) p h = elim (Bool-cases (ltb_ℤ y.0 x.0)) [
  | inl e ↦ rw e (h.0, All-insert P x ys p h.1)
  | inr e ↦ rw e (p, h)
]

All-sort : (P : ℤ × Acc → Type 0) (xs : Accs) → All P xs → All P (sort_accs xs)
unfolding sort_accs
All-sort P [] h = tt
All-sort P (x ∷ xs) h = All-insert P x (sort_accs xs) h.0 (All-sort P xs h.1)

above : (x y : ℤ × Acc) → ltb_ℤ y.0 x.0 ≡ false → y.0 ≢ x.0 → x.0 <ℤ y.0
above (i, a) (j, b) h k = ground arith

Rising-insert :
    (x : ℤ × Acc) (xs : Accs) → All (λ y. y.0 ≢ x.0) xs → Rising xs → Rising (insert_sorted x xs)
unfolding insert_sorted
Rising-insert x [] d r = (tt, tt)
Rising-insert x (y ∷ ys) d r = elim (Bool-cases (ltb_ℤ y.0 x.0)) [
  | inl e ↦ rw e (All-insert _ x ys (ground arith) r.0, Rising-insert x ys d.1 r.1)
  | inr e ↦ let lt = above x y e d.0 in rw e ((lt, All-mono _ _ ys (λ z h. omega arith) r.0), r)
]

Rising-sort : (xs : Accs) → Distinct xs → Rising (sort_accs xs)
unfolding sort_accs
Rising-sort [] d = tt
Rising-sort (x ∷ xs) d =
    Rising-insert x (sort_accs xs) (All-sort (λ y. y.0 ≢ x.0) xs d.0) (Rising-sort xs d.1)

at_index-insert :
    (i : ℤ) (x : ℤ × Acc) (xs : Accs)
    → All (λ y. y.0 ≢ x.0) xs
    → at_index i (insert_sorted x xs) ≡ at_index i (x ∷ xs)
unfolding insert_sorted
at_index-insert i x [] d = refl
at_index-insert i (j, a) ((k, b) ∷ ys) d =
    ground (arith, at_index-insert i (j, a) ys d.1, d.0, eqb_ℤ_iff j i, eqb_ℤ_iff k i)

at_index-sort : (i : ℤ) (xs : Accs) → Distinct xs → at_index i (sort_accs xs) ≡ at_index i xs
unfolding sort_accs
at_index-sort i [] d = refl
at_index-sort i (x ∷ xs) d =
    at_index-insert i x (sort_accs xs) (All-sort (λ y. y.0 ≢ x.0) xs d.0)
    ∙ ap (λ o. if eqb_ℤ x.0 i then some x.1 else o) (at_index-sort i xs d.1)

-- The calls that a stream should send: at rising indices, and at each index the call that its
-- fragments spell.
pub record Calls (fs : List Fragment) (calls : List ToolCall) : Type 0 where
  pub entries : Accs
  pub rising : Rising entries
  pub sent : calls ≡ map call_of entries
  pub complete :
      (i : ℤ)
      → at_index i entries
        ≡ (elim (of_index i fs) [ [] ↦ none | f ∷ rest ↦ some (spelled (f ∷ rest)) ])

-- A stream sends the non-empty contents before its end mark as tokens, in order, and for each index
-- that its fragments name exactly one tool call, in rising order of the indices: the first id, type
-- and name given for that index, and its arguments joined in order of arrival, however the
-- fragments of different calls interleave.
pub read_sse_stream_lem :
    (parse : String → Option Chunk) (lines : List String)
    → ((read_sse_stream parse lines).0 ≡ tokens_of (deltas parse lines))
      × Calls (fragments_of (deltas parse lines)) (read_sse_stream parse lines).1
unfolding read_sse_stream
read_sse_stream_lem parse lines = (
  ap (λ r. r.0) (scan_lem parse lines []),
  record {
    entries = sort_accs accs;
    rising = Rising-sort accs distinct;
    sent = refl;
    complete = λ i. at_index-sort i accs distinct ∙ scan-spelled parse lines i;
  },
)
  where
    accs : Accs
    accs = (scan parse lines []).1

    distinct : Distinct accs
    distinct =
        subst Distinct (ap (λ r. r.1) (sym (scan_lem parse lines [])))
          (Distinct-put_all (fragments_of (deltas parse lines)) [] tt)
