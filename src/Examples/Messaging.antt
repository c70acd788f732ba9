-- ===== src/Examples/Messaging.antt =====
-- The reading of streams on small inputs.
use microagent.Prelude.{
  ◌+◌, suc, String, Bool, true, false, not, ◌≡◌, refl, ◌↔◌, Option, none, some, List, [], ◌∷◌, ◌++◌,
  Any,
}
use microagent.Prelude.Text.{str_eq}
use microagent.Messaging.{
  Message, Entry, ReplyPoll, nothing_read, entries_read, deadline_passed, replied, wait_for_reply,
  decode_from_stream,
}
use microagent.Messaging.Entries.{count_id, ids}
use microagent.Messaging.Waiting.{brought_by, wait_for_reply_lem}
use microagent.Messaging.Consume.{
  redis_nil, redis_text, classify_error, contains_from, Round, round, context_done, read, failed,
  context_error, new_consumer, consume_stream, check_phantom_consume, err_class_no_group,
}
use microagent.Messaging.Consume.Kept.{entries_of, HasRead}
use microagent.Messaging.Consume.Handled.{consume_stream-HasRead}
use microagent.Messaging.Consume.Phantom.{Unhandled, has_delivered, check_phantom_consume_reports}

abbrev message : String → Message
message corr = record {
  type = "chat_response";
  correlation_id = corr;
  timestamp = 0;
  source = "agent";
  reply_stream = "";
  payload = "{}";
}

-- The text of a message is its correlation id, and one text decodes to nothing.
abbrev unmarshal : String → Option Message
unmarshal text = elim (str_eq text "broken") [ true ↦ none | false ↦ some (message text) ]

abbrev entry : String → String → Entry
entry id text = record { id = id; text = some text }

abbrev polls : List ReplyPoll
polls =
    entries_read (entry "1-0" "other" ∷ [])
    ∷ nothing_read
    ∷ entries_read (record { id = "2-0"; text = none } ∷ [])
    ∷ []

wait_for_reply_lem_example :
    let w =
      wait_for_reply unmarshal "mine" true
        (polls ++ (entries_read (entry "3-0" "mine" ∷ []) ∷ deadline_passed ∷ [])) in
    (w.0 ≡ replied (message "mine"))
    × ((i : String)
        → count_id i w.1 ≡ count_id i (ids (brought_by polls)) + count_id i ("3-0" ∷ []))
unfolding decode_from_stream
wait_for_reply_lem_example =
    wait_for_reply_lem unmarshal "mine" polls ((λ q. absurd (cc), tt), (refl, (tt, tt)))
      (entry "3-0" "mine") (message "mine") refl refl (deadline_passed ∷ [])

-- The handler refuses one message.
abbrev accepts : Message → Bool
accepts m = not (str_eq m.correlation_id "refused")

abbrev rounds : List Round
rounds =
    round none (read (entry "1-0" "a" ∷ entry "2-0" "refused" ∷ []))
    ∷ round (some (some [])) (failed redis_nil true false)
    ∷ round none (failed (redis_text "NOGROUP No such key") false false)
    ∷ round none (failed (redis_text "EOF") true false)
    ∷ round none (read (entry "3-0" "broken" ∷ entry "4-0" "b" ∷ []))
    ∷ []

consume_stream-HasRead_example :
    let r = consume_stream unmarshal accepts "cg:broker" true (rounds ++ (context_done ∷ [])) in
    (r.0 ≡ context_error) × HasRead unmarshal accepts (entries_of rounds) r.1
consume_stream-HasRead_example =
    consume_stream-HasRead unmarshal accepts "cg:broker" rounds []
      (refl, (refl, (refl, (refl, (refl, tt)))))

check_phantom_consume_reports_example :
    let c = (consume_stream unmarshal accepts "cg:broker" true (rounds ++ (context_done ∷ []))).1 in
    let seen = has_delivered "cg:broker" (entries_of rounds) in
    let checked = check_phantom_consume "cg:broker" seen c in
    ((check_phantom_consume "cg:broker" seen checked).phantom_logs ≡ suc checked.phantom_logs)
    ↔ Any (Unhandled unmarshal accepts) (entries_of rounds)
check_phantom_consume_reports_example =
    check_phantom_consume_reports unmarshal accepts "cg:broker" (entries_of rounds)
      (consume_stream unmarshal accepts "cg:broker" true (rounds ++ (context_done ∷ []))).1
      (consume_stream-HasRead unmarshal accepts "cg:broker" rounds []
        (refl, (refl, (refl, (refl, (refl, tt)))))).1

-- The class of an error is found by its text.
classified_test : classify_error (some (redis_text "ERR no such key")) ≡ err_class_no_group
unfolding classify_error contains_from
classified_test = refl

-- A consumer that starts anew in a group that has delivered entries before reports a phantom at its
-- first check.
restarted_test :
    (check_phantom_consume "cg:broker"
      (has_delivered "cg:broker" (entry "1-0" "a" ∷ []))
      new_consumer).phantom_logs
    ≡ 1
unfolding check_phantom_consume
restarted_test = refl
