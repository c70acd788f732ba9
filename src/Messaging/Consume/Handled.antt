-- ===== src/Messaging/Consume/Handled.antt =====
-- `ConsumeStream` of internal/messaging/consume.go: what becomes of the entries that are read.
use microagent.Prelude.{
  ◌+◌, Bool-cases, inl, inr, String, Bool, true, false, ◌≡◌, refl, sym, ap, ◌∙◌, Option, some, List,
  [], ◌∷◌, ◌++◌, All, append-nil, append_assoc, length, length-append, arith,
}
use microagent.Messaging.{Message, Entry, read_group}
use microagent.Messaging.Entries.{
  one_if, count_id, count_id-append, ids, ids-append, messages_in, messages_in-append,
  read_messages, ids_of, read_messages-read_group, count_id-read_group,
}
use microagent.Messaging.Consume.{
  classify_error, Consumer, new_consumer, failed, read, Round, context_done, round, on_tick,
  on_error, on_read, count_call, handle_messages, context_error, go_on, consume_loop,
  consume_stream, consume_backoff_start,
}
use microagent.Messaging.Consume.Kept.{
  GoesOn, entries_of, accepted, accepted-append, HasRead, on_tick-HasRead, on_error-HasRead,
}

module _ (unmarshal : String → Option Message) (accepts : Message → Bool) where
  -- One message is handled and acknowledged.
  abbrev step : Message → String → Consumer → Consumer
  step m id c =
      let counted = count_call (accepts m) (record c { calls = c.calls ++ (m ∷ []) }) in
      record counted { acked = counted.acked ++ (id ∷ []) }

  abbrev Counted : Consumer → Type 0
  Counted c =
      (c.handled ≡ accepted accepts c.calls) × (c.handled + c.handler_errors ≡ length c.calls)

  step_lem :
      (m : Message) (id : String) (c : Consumer)
      → ((step m id c).calls ≡ c.calls ++ (m ∷ []))
        × ((step m id c).acked ≡ c.acked ++ (id ∷ []))
        × ((step m id c).backoff ≡ c.backoff)
        × (Counted c → Counted (step m id c))
  step_lem m id c = elim (Bool-cases (accepts m)) [
    | inl e ↦ rw e (
      refl,
      refl,
      refl,
      λ h. (
        omega (arith, h.0, accepted-append accepts c.calls (m ∷ []), ap one_if e),
        omega (arith, h.1, length-append c.calls (m ∷ [])),
      ),
    )
    | inr e ↦ rw e (
      refl,
      refl,
      refl,
      λ h. (
        omega (arith, h.0, accepted-append accepts c.calls (m ∷ []), ap one_if e),
        omega (arith, h.1, length-append c.calls (m ∷ [])),
      ),
    )
  ]

  handle_messages_lem :
      (ms : List (Message × String)) (c : Consumer)
      → let d = handle_messages accepts ms c in
        (d.calls ≡ c.calls ++ read_messages ms)
        × ((id : String) → count_id id d.acked ≡ count_id id c.acked + count_id id (ids_of ms))
        × (d.backoff ≡ c.backoff)
        × (Counted c → Counted d)
  unfolding handle_messages
  handle_messages_lem [] c = (sym (append-nil c.calls), λ id. omega arith, refl, λ h. h)
  handle_messages_lem ((m, id) ∷ ms) c =
      let s = step_lem m id c in
      let ih = handle_messages_lem ms (step m id c) in
      (
        ih.0
            ∙ ap (λ x. x ++ read_messages ms) s.0
            ∙ append_assoc c.calls (m ∷ []) (read_messages ms),
        λ i. omega (arith, ih.1 i, ap (count_id i) s.1, count_id-append i c.acked (id ∷ [])),
        ih.2 ∙ s.2,
        λ h. ih.3 (s.3 h),
      )

  -- A read of entries.
  read-HasRead :
      (new es : List Entry) (c : Consumer)
      → HasRead unmarshal accepts es c
      → HasRead unmarshal accepts (es ++ new) (on_read unmarshal accepts (read new) c).1
  read-HasRead new es c h =
      let b = read_group unmarshal new in
      let c' : Consumer = record c {
        unknown_error_streak = 0;
        backoff = consume_backoff_start;
        acked = c.acked ++ b.acked;
      } in
      let l = handle_messages_lem b.msgs c' in
      let n = l.3 (h.handled_are, h.counted_are) in
      record {
        calls_are =
            l.0
            ∙ ap (λ x. c.calls ++ x) (read_messages-read_group unmarshal new)
            ∙ ap (λ x. x ++ messages_in unmarshal new) h.calls_are
            ∙ sym (messages_in-append unmarshal es new);
        acked_are = λ i. omega (
          arith,
          l.1 i,
          count_id-append i c.acked b.acked,
          count_id-read_group unmarshal i new,
          h.acked_are i,
          ap (count_id i) (ids-append es new),
          count_id-append i (ids es) (ids new),
        );
        handled_are = n.0;
        counted_are = n.1;
        backoff_from = omega (arith, l.2);
        backoff_to = omega (arith, l.2);
      }

  loop_on :
      (group : String) (rs : List Round) (es : List Entry) (c : Consumer)
      → HasRead unmarshal accepts es c
      → All GoesOn rs
      → (rest : List Round)
      → let r = consume_loop unmarshal accepts group (rs ++ (context_done ∷ rest)) c in
        (r.0 ≡ context_error) × HasRead unmarshal accepts (es ++ entries_of rs) r.1
  unfolding consume_loop
  loop_on group [] es c h g rest = rw (append-nil es) (refl, h)
  loop_on group (context_done ∷ rs) es c h g rest = absurd (cc)
  loop_on group (round tick (failed e recreated true) ∷ rs) es c h g rest = absurd (cc)
  loop_on group (round tick (failed e recreated false) ∷ rs) es c h g rest =
      let k = classify_error (some e) in
      let t = on_tick group tick c in
      let went =
        on_error-HasRead unmarshal accepts k recreated es t
          (on_tick-HasRead unmarshal accepts group tick es c h) in
      went_on (on_error k recreated false t) group rs es went.0 rest
        (loop_on group rs es (on_error k recreated false t).1 went.1 g.1 rest)
    where
      went_on :
          (p : Bool × Consumer) (group : String) (rs : List Round) (es : List Entry)
          → p.0 ≡ true
          → (rest : List Round)
          → (let r = consume_loop unmarshal accepts group (rs ++ (context_done ∷ rest)) p.1 in
              (r.0 ≡ context_error) × HasRead unmarshal accepts (es ++ entries_of rs) r.1)
          → (let r = go_on p (consume_loop unmarshal accepts group (rs ++ (context_done ∷ rest))) in
              (r.0 ≡ context_error) × HasRead unmarshal accepts (es ++ entries_of rs) r.1)
      went_on (true, d) group rs es p rest h = h
      went_on (false, d) group rs es p rest h = absurd (cc)
  loop_on group (round tick (read new) ∷ rs) es c h g rest =
      let t = on_tick group tick c in
      let k = read-HasRead new es t (on_tick-HasRead unmarshal accepts group tick es c h) in
      rw (sym (append_assoc es new (entries_of rs)))
        (loop_on group rs (es ++ new) (on_read unmarshal accepts (read new) t).1 k g.1 rest)

new-HasRead :
    (unmarshal : String → Option Message) (accepts : Message → Bool)
    → HasRead unmarshal accepts [] new_consumer
new-HasRead unmarshal accepts = record {
  calls_are = refl;
  acked_are = λ id. refl;
  handled_are = refl;
  counted_are = omega arith;
  backoff_from = omega arith;
  backoff_to = omega arith;
}

-- A consumer whose group is there at the start goes on until its context is done, whatever errors
-- its reads and its handler give. By then the handler has been called once for each message that
-- was read, in order, and every entry has been acknowledged as often as it was read, and no other,
-- undecodable ones and those that the handler refuses included; `Handled` counts the messages that
-- the handler accepts and `HandlerErrors` the others; and the time to back off is between 100 ms
-- and 5 s.
pub consume_stream-HasRead :
    (unmarshal : String → Option Message) (accepts : Message → Bool) (group : String)
    (rounds rest : List Round)
    → All GoesOn rounds
    → let r = consume_stream unmarshal accepts group true (rounds ++ (context_done ∷ rest)) in
      (r.0 ≡ context_error) × HasRead unmarshal accepts (entries_of rounds) r.1
unfolding consume_stream
consume_stream-HasRead unmarshal accepts group rounds rest h =
    loop_on unmarshal accepts group rounds [] new_consumer (new-HasRead unmarshal accepts) h rest
