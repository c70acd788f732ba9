-- ===== src/Messaging.antt =====
-- internal/messaging: the messages on the streams, and how a client reads them (message.go,
-- client.go). What a read of a stream brings is a list of entries; an entry without a text under
-- `data` has none. The JSON package is an argument: the text of a payload, and what a text decodes
-- to. Acknowledgements are listed when they are attempted, since their failures are only logged.
pub mod Entries
pub mod Consume
pub mod Waiting
use microagent.Prelude.{
  ℕ, String, Bool, true, false, not, Option, none, some, List, [], ◌∷◌, ◌++◌, if◌then◌else◌,
}
use microagent.Prelude.Text.{str_eq}

pub record Message : Type 0 where
  pub type : String
  pub correlation_id : String
  pub timestamp : ℕ
  pub source : String
  pub reply_stream : String
  pub payload : String

-- `payload` is what `Marshal` makes of the payload; `none` for its error.
unfoldable pub new_message : String → String → Option String → String → ℕ → Option Message
new_message type source none id now = none
new_message type source (some payload) id now = some (record {
  type = type;
  correlation_id = id;
  timestamp = now;
  source = source;
  reply_stream = "";
  payload = payload;
})

unfoldable pub new_reply : Message → String → String → Option String → ℕ → Option Message
new_reply original type source payload now =
    new_message type source payload original.correlation_id now

-- An entry of a stream, with the text under `data`.
pub record Entry : Type 0 where
  pub id : String
  pub text : Option String

unfoldable pub decode_from_stream : (String → Option Message) → Option String → Option Message
decode_from_stream unmarshal none = none
decode_from_stream unmarshal (some text) = unmarshal text

-- What `ReadGroup` returns, and what it has acknowledged by then.
pub record Batch : Type 0 where
  pub msgs : List (Message × String)
  pub acked : List String

abbrev pub put_entry : String → Option Message → Batch → Batch
put_entry id none b = record b { acked = id ∷ b.acked }
put_entry id (some m) b = record b { msgs = (m, id) ∷ b.msgs }

unfoldable pub read_group : (String → Option Message) → List Entry → Batch
read_group unmarshal [] = record { msgs = []; acked = [] }
read_group unmarshal (e ∷ es) =
    put_entry e.id (decode_from_stream unmarshal e.text) (read_group unmarshal es)

-- What a round of `WaitForReply` finds.
pub data ReplyPoll : Type 0 where
  deadline_passed context_done nothing_read read_failed : ReplyPoll
  entries_read : List Entry → ReplyPoll

pub data Waited : Type 0 where
  timed_out context_error redis_error waiting : Waited
  replied : Message → Waited

-- The first message of the correlation, and the ids that are acknowledged up to it.
unfoldable pub find_reply : String → List (Message × String) → Option Message × List String
find_reply corr [] = (none, [])
find_reply corr ((m, id) ∷ ms) =
    let (found, acked) = find_reply corr ms in
    if str_eq m.correlation_id corr then (some m, id ∷ []) else (found, id ∷ acked)

abbrev pub on_replies :
    List String → Option Message × List String → Waited × List String → Waited × List String
on_replies before (some m, acked) next = (replied m, before ++ acked)
on_replies before (none, acked) (w, later) = (w, before ++ (acked ++ later))

unfoldable pub poll_replies :
    (String → Option Message) → String → List ReplyPoll → Waited × List String
poll_replies unmarshal corr [] = (waiting, [])
poll_replies unmarshal corr (deadline_passed ∷ ps) = (timed_out, [])
poll_replies unmarshal corr (context_done ∷ ps) = (context_error, [])
poll_replies unmarshal corr (read_failed ∷ ps) = (redis_error, [])
poll_replies unmarshal corr (nothing_read ∷ ps) = poll_replies unmarshal corr ps
poll_replies unmarshal corr (entries_read es ∷ ps) =
    let b = read_group unmarshal es in
    on_replies b.acked (find_reply corr b.msgs) (poll_replies unmarshal corr ps)

-- `ensured` says whether the group of the reply stream is there.
unfoldable pub wait_for_reply :
    (String → Option Message) → String → Bool → List ReplyPoll → Waited × List String
wait_for_reply unmarshal corr ensured polls =
    let polled = poll_replies unmarshal corr polls in
    if not ensured then (redis_error, []) else polled
