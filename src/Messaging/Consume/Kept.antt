-- ===== src/Messaging/Consume/Kept.antt =====
-- `ConsumeStream` of internal/messaging/consume.go: what a consumer has done with the entries that
-- it has read, and that a check and an error keep it.
use microagent.Prelude.{
  leb, ◌==◌, not, ◌&&◌, ℕ, ◌+◌, ◌*◌, ◌≤◌, ltb, Bool-cases, inl, inr, String, Bool, true, false, ◌≡◌,
  refl, sym, ap, ◌∙◌, Option, none, some, List, [], ◌∷◌, ◌++◌, length, arith,
}
use microagent.Prelude.Int.{pos_part}
use microagent.Prelude.Text.{str_eq}
use microagent.Messaging.{Message, Entry}
use microagent.Messaging.Entries.{one_if, count_id, ids, messages_in}
use microagent.Messaging.Consume.{
  check_group, log_phantom, ErrClass, err_class_unknown, err_class_nil, err_class_no_group,
  GroupInfo, Consumer, check_phantom_consume, log_phantom, failed, read, Round, context_done, round,
  on_tick, on_error, next_backoff, consume_backoff_start, consume_backoff_cap,
}

-- A round at which the context is not done.
abbrev pub GoesOn : Round → Type 0
GoesOn context_done = true ≡ false
GoesOn (round tick (failed e recreated done)) = done ≡ false
GoesOn (round tick (read es)) = true ≡ true

-- The entries that the rounds read.
abbrev pub entries_of : List Round → List Entry
entries_of [] = []
entries_of (context_done ∷ rs) = entries_of rs
entries_of (round tick (failed e recreated done) ∷ rs) = entries_of rs
entries_of (round tick (read es) ∷ rs) = es ++ entries_of rs

-- How many messages the handler accepts.
abbrev pub accepted : (Message → Bool) → List Message → ℕ
accepted accepts [] = 0
accepted accepts (m ∷ ms) = one_if (accepts m) + accepted accepts ms

pub accepted-append :
    (accepts : Message → Bool) (ms ns : List Message)
    → accepted accepts (ms ++ ns) ≡ accepted accepts ms + accepted accepts ns
accepted-append accepts [] ns = omega arith
accepted-append accepts (m ∷ ms) ns = omega (arith, accepted-append accepts ms ns)

-- What a consumer has done with the entries that it has read.
pub record HasRead (unmarshal : String → Option Message) (accepts : Message → Bool)
    (es : List Entry) (c : Consumer) : Type 0 where
  pub calls_are : c.calls ≡ messages_in unmarshal es
  pub acked_are : (id : String) → count_id id c.acked ≡ count_id id (ids es)
  pub handled_are : c.handled ≡ accepted accepts c.calls
  pub counted_are : c.handled + c.handler_errors ≡ length c.calls
  pub backoff_from : consume_backoff_start ≤ c.backoff
  pub backoff_to : c.backoff ≤ consume_backoff_cap

next_backoff_bounds :
    (b : ℕ)
    → consume_backoff_start ≤ b
    → (consume_backoff_start ≤ next_backoff b) × (next_backoff b ≤ consume_backoff_cap)
unfolding next_backoff
next_backoff_bounds b h = elim (Bool-cases (ltb consume_backoff_cap (b * 2))) [
  | inl e ↦ rw e (omega arith, omega arith)
  | inr e ↦ rw e (omega (arith, h), ground (arith, e))
]

module _ (unmarshal : String → Option Message) (accepts : Message → Bool) where
  -- A change of the other fields.
  kept :
      (es : List Entry) (c d : Consumer)
      → HasRead unmarshal accepts es c
      → d.calls ≡ c.calls
      → d.acked ≡ c.acked
      → d.handled ≡ c.handled
      → d.handler_errors ≡ c.handler_errors
      → (consume_backoff_start ≤ d.backoff) × (d.backoff ≤ consume_backoff_cap)
      → HasRead unmarshal accepts es d
  kept es c d h calls acked handled errors bounds = record {
    calls_are = calls ∙ h.calls_are;
    acked_are = λ id. ap (count_id id) acked ∙ h.acked_are id;
    handled_are = handled ∙ h.handled_are ∙ ap (accepted accepts) (sym calls);
    counted_are = omega (arith, handled, errors, h.counted_are, ap length calls);
    backoff_from = bounds.0;
    backoff_to = bounds.1;
  }

  check_group-HasRead :
      (n : ℕ) (es : List Entry) (c : Consumer)
      → HasRead unmarshal accepts es c
      → HasRead unmarshal accepts es (check_group n c)
  check_group-HasRead n es c h =
      checked (not (leb n c.handled) && (c.last_handled_baseline == c.handled && ltb c.handled n))
    where
      checked :
          (logs : Bool)
          → HasRead unmarshal accepts es
              (record (log_phantom logs c) { last_handled_baseline = c.handled })
      checked true = kept es c _ h refl refl refl refl (h.backoff_from, h.backoff_to)
      checked false = kept es c _ h refl refl refl refl (h.backoff_from, h.backoff_to)

  check_phantom_consume-HasRead :
      (group : String) (groups : Option (List GroupInfo)) (es : List Entry) (c : Consumer)
      → HasRead unmarshal accepts es c
      → HasRead unmarshal accepts es (check_phantom_consume group groups c)
  unfolding check_phantom_consume
  check_phantom_consume-HasRead group none es c h = h
  check_phantom_consume-HasRead group (some []) es c h = h
  check_phantom_consume-HasRead group (some (g ∷ gs)) es c h =
      elim (Bool-cases (str_eq g.name group)) [
        | inl e ↦ rw e (check_group-HasRead (pos_part g.entries_read) es c h)
        | inr e ↦ rw e (check_phantom_consume-HasRead group (some gs) es c h)
      ]

  pub on_tick-HasRead :
      (group : String) (tick : Option (Option (List GroupInfo))) (es : List Entry) (c : Consumer)
      → HasRead unmarshal accepts es c
      → HasRead unmarshal accepts es (on_tick group tick c)
  on_tick-HasRead group none es c h = h
  on_tick-HasRead group (some groups) es c h = check_phantom_consume-HasRead group groups es c h

  -- An error at which the loop goes on.
  pub on_error-HasRead :
      (k : ErrClass) (recreated : Bool) (es : List Entry) (c : Consumer)
      → HasRead unmarshal accepts es c
      → ((on_error k recreated false c).0 ≡ true)
        × HasRead unmarshal accepts es (on_error k recreated false c).1
  on_error-HasRead err_class_nil recreated es c h =
      (refl, kept es c _ h refl refl refl refl (omega arith, omega arith))
  on_error-HasRead err_class_no_group true es c h =
      (refl, kept es c _ h refl refl refl refl (h.backoff_from, h.backoff_to))
  on_error-HasRead err_class_no_group false es c h =
      (refl, kept es c _ h refl refl refl refl (next_backoff_bounds c.backoff h.backoff_from))
  on_error-HasRead err_class_unknown recreated es c h =
      (refl, kept es c _ h refl refl refl refl (next_backoff_bounds c.backoff h.backoff_from))
