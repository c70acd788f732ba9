-- ===== src/Messaging/Consume/Phantom.antt =====
-- `checkPhantomConsume` of internal/messaging/consume.go: when a phantom is reported.
use microagent.Prelude.{
  ℕ, suc, ◌+◌, ◌≤◌, ◌<◌, ltb, leb, ◌==◌, not, ◌&&◌, String, Bool, true, false, ◌≡◌, refl, sym, ap,
  ◌∙◌, subst, ◌↔◌, ◌⊎◌, inl, inr, Option, none, some, List, [], ◌∷◌, Any, here, there, length,
  Bool-cases, Option-cases, arith,
}
use microagent.Prelude.Int.{pos}
use microagent.Prelude.Text.{eq_refl}
use microagent.Messaging.{Message, Entry, decode_from_stream}
use microagent.Messaging.Entries.{one_if, messages_in, with_decoded}
use microagent.Messaging.Consume.{
  GroupInfo, Consumer, check_phantom_consume, check_group, log_phantom,
}
use microagent.Messaging.Consume.Kept.{HasRead, accepted}

-- An entry that does not count as handled.
abbrev pub Unhandled : (String → Option Message) → (Message → Bool) → Entry → Type 0
Unhandled unmarshal accepts e =
    (decode_from_stream unmarshal e.text ≡ none)
    ⊎ ((m : Message) × (decode_from_stream unmarshal e.text ≡ some m) × (accepts m ≡ false))

-- What the group reports when all of `es` have been read.
abbrev pub has_delivered : String → List Entry → Option (List GroupInfo)
has_delivered group es = some (record { name = group; entries_read = pos (length es) } ∷ [])

module _ (unmarshal : String → Option Message) (accepts : Message → Bool) where
  accepted_most : (es : List Entry) → accepted accepts (messages_in unmarshal es) ≤ length es
  accepted_most [] = omega arith
  accepted_most (e ∷ es) = elim (Option-cases (decode_from_stream unmarshal e.text)) [
    | inl d ↦ rw d (omega (arith, accepted_most es))
    | inr (m, d) ↦ elim (Bool-cases (accepts m)) [
      | inl a ↦ rw (d, a) (omega (arith, accepted_most es))
      | inr a ↦ rw (d, a) (omega (arith, accepted_most es))
    ]
  ]

  accepted_fewer :
      (es : List Entry)
      → Any (Unhandled unmarshal accepts) es
      → accepted accepts (messages_in unmarshal es) < length es
  accepted_fewer [] k = elim k [ ]
  accepted_fewer (e ∷ es) (here (inl d)) = rw d (omega (arith, accepted_most es))
  accepted_fewer (e ∷ es) (here (inr (m, d, a))) = rw (d, a) (omega (arith, accepted_most es))
  accepted_fewer (e ∷ es) (there k) = elim (Option-cases (decode_from_stream unmarshal e.text)) [
    | inl d ↦ rw d (omega (arith, accepted_fewer es k))
    | inr (m, d) ↦ elim (Bool-cases (accepts m)) [
      | inl a ↦ rw (d, a) (omega (arith, accepted_fewer es k))
      | inr a ↦ rw (d, a) (omega (arith, accepted_fewer es k))
    ]
  ]

  fewer_accepted :
      (es : List Entry)
      → accepted accepts (messages_in unmarshal es) < length es
      → Any (Unhandled unmarshal accepts) es
  fewer_accepted [] h = absurd (omega (arith, h))
  fewer_accepted (e ∷ es) h = elim (Option-cases (decode_from_stream unmarshal e.text)) [
    | inl d ↦ here (inl d)
    | inr (m, d) ↦ elim (Bool-cases (accepts m)) [
      | inl a ↦
          let h' =
            subst
              (λ o. accepted accepts (with_decoded o (messages_in unmarshal es)) < suc (length es))
              d h in
          there (fewer_accepted es (omega (arith, h', ap one_if a)))
      | inr a ↦ here (inr (m, d, a))
    ]
  ]

log_phantom-one_if :
    (logs : Bool) (c : Consumer) → (log_phantom logs c).phantom_logs ≡ c.phantom_logs + one_if logs
log_phantom-one_if true c = omega arith
log_phantom-one_if false c = omega arith

-- The check's test, when the last check found the same number of handled messages.
same_test :
    (n handled baseline : ℕ)
    → baseline ≡ handled
    → (not (leb n handled) && (baseline == handled && ltb handled n)) ≡ ltb handled n
same_test n handled baseline e = ground (arith, e)

check_lem :
    (group : String) (n : ℕ) (c : Consumer)
    → check_phantom_consume group (some (record { name = group; entries_read = pos n } ∷ [])) c
      ≡ check_group n c
unfolding check_phantom_consume
check_lem group n c = rw (eq_refl group) refl

check_again :
    (n : ℕ) (c : Consumer)
    → c.last_handled_baseline ≡ c.handled
    → (check_group n c).phantom_logs ≡ c.phantom_logs + one_if (ltb c.handled n)
check_again n c e =
    log_phantom-one_if _ c
    ∙ ap (λ b. c.phantom_logs + one_if b) (same_test n c.handled c.last_handled_baseline e)

log_phantom-handled : (logs : Bool) (c : Consumer) → (log_phantom logs c).handled ≡ c.handled
log_phantom-handled true c = refl
log_phantom-handled false c = refl

reported_if :
    (a n before after : ℕ) → after ≡ before + one_if (ltb a n) → (after ≡ suc before) ↔ (a < n)
reported_if a n before after e = elim (Bool-cases (ltb a n)) [
  | inl l ↦ (λ q. ground (arith, l), λ q. omega (arith, e, ap one_if l))
  | inr l ↦ (λ q. absurd (omega (arith, q, e, ap one_if l)), λ q. absurd (ground (arith, l, q)))
]

-- Of a consumer that has read all entries of its group, the second of two checks without a read
-- between them reports a phantom exactly if an entry could not be decoded or its handler gave an
-- error, although all have been acknowledged.
pub check_phantom_consume_reports :
    (unmarshal : String → Option Message) (accepts : Message → Bool) (group : String)
    (es : List Entry) (c : Consumer)
    → HasRead unmarshal accepts es c
    → let checked = check_phantom_consume group (has_delivered group es) c in
      ((check_phantom_consume group (has_delivered group es) checked).phantom_logs
        ≡ suc checked.phantom_logs)
      ↔ Any (Unhandled unmarshal accepts) es
check_phantom_consume_reports unmarshal accepts group es c h =
    let n = length es in
    let checked = check_group n c in
    let same =
      log_phantom-handled
        (not (leb n c.handled) && (c.last_handled_baseline == c.handled && ltb c.handled n)) c in
    let handled : checked.handled ≡ accepted accepts (messages_in unmarshal es) =
      same ∙ h.handled_are ∙ ap (accepted accepts) h.calls_are in
    let reported =
      reported_if checked.handled n checked.phantom_logs (check_group n checked).phantom_logs
        (check_again n checked (sym same)) in
    rw (check_lem group n c, check_lem group n checked)
      (
        λ q. fewer_accepted unmarshal accepts es (omega (arith, reported.0 q, handled)),
        λ q. reported.1 (omega (arith, accepted_fewer unmarshal accepts es q, handled)),
      )
