-- ===== src/Messaging/Waiting.antt =====
-- `WaitForReply` of internal/messaging/client.go: which message a caller gets.
use microagent.Prelude.{
  ◌+◌, String, true, false, subst, ◌≡◌, ◌≢◌, refl, ap, sym, Option, none, some, List, [], ◌∷◌, ◌++◌,
  All, Bool-cases, inl, inr, arith,
}
use microagent.Prelude.Text.{str_eq, eq_iff}
use microagent.Messaging.{
  Message, Entry, decode_from_stream, read_group, ReplyPoll, nothing_read, entries_read,
  deadline_passed, context_done, read_failed, replied, find_reply, poll_replies, wait_for_reply,
}
use microagent.Messaging.Entries.{
  count_id, count_id-append, ids, ids-append, messages_in, read_messages, ids_of,
  read_messages-read_group, count_id-read_group,
}

-- A round that goes on and brings no message of the correlation.
abbrev pub BringsNone : (String → Option Message) → String → ReplyPoll → Type 0
BringsNone unmarshal corr nothing_read = true ≡ true
BringsNone unmarshal corr (entries_read es) =
    All (λ (m : Message). m.correlation_id ≢ corr) (messages_in unmarshal es)
BringsNone unmarshal corr deadline_passed = true ≡ false
BringsNone unmarshal corr context_done = true ≡ false
BringsNone unmarshal corr read_failed = true ≡ false

-- The entries that the rounds bring.
abbrev pub brought_by : List ReplyPoll → List Entry
brought_by [] = []
brought_by (entries_read es ∷ ps) = es ++ brought_by ps
brought_by (nothing_read ∷ ps) = brought_by ps
brought_by (deadline_passed ∷ ps) = brought_by ps
brought_by (context_done ∷ ps) = brought_by ps
brought_by (read_failed ∷ ps) = brought_by ps

find_reply-none :
    (corr : String) (ms : List (Message × String))
    → All (λ (m : Message). m.correlation_id ≢ corr) (read_messages ms)
    → find_reply corr ms ≡ (none, ids_of ms)
unfolding find_reply
find_reply-none corr [] h = refl
find_reply-none corr ((m, id) ∷ ms) h = elim (Bool-cases (str_eq m.correlation_id corr)) [
  | inl e ↦ absurd (h.0 ((eq_iff m.correlation_id corr).0 e))
  | inr e ↦ rw (e, find_reply-none corr ms h.1) refl
]

-- The last round, which brings the reply.
reply_read :
    (unmarshal : String → Option Message) (corr : String) (e : Entry) (m : Message)
    → decode_from_stream unmarshal e.text ≡ some m
    → m.correlation_id ≡ corr
    → (rest : List ReplyPoll)
    → poll_replies unmarshal corr (entries_read (e ∷ []) ∷ rest) ≡ (replied m, e.id ∷ [])
unfolding poll_replies read_group find_reply
reply_read unmarshal corr e m d q rest = rw (d, (eq_iff m.correlation_id corr).1 q) refl

poll_replies_lem :
    (unmarshal : String → Option Message) (corr : String) (polls : List ReplyPoll)
    → All (BringsNone unmarshal corr) polls
    → (e : Entry) (m : Message) → decode_from_stream unmarshal e.text ≡ some m
    → m.correlation_id ≡ corr
    → (rest : List ReplyPoll)
    → let w = poll_replies unmarshal corr (polls ++ (entries_read (e ∷ []) ∷ rest)) in
      (w.0 ≡ replied m)
      × ((i : String)
          → count_id i w.1 ≡ count_id i (ids (brought_by polls)) + count_id i (e.id ∷ []))
unfolding poll_replies
poll_replies_lem unmarshal corr [] h e m d q rest =
    rw (reply_read unmarshal corr e m d q rest) (refl, λ i. omega arith)
poll_replies_lem unmarshal corr (nothing_read ∷ ps) h e m d q rest =
    poll_replies_lem unmarshal corr ps h.1 e m d q rest
poll_replies_lem unmarshal corr (entries_read es ∷ ps) h e m d q rest =
    let ih = poll_replies_lem unmarshal corr ps h.1 e m d q rest in
    let b = read_group unmarshal es in
    let w = poll_replies unmarshal corr (ps ++ (entries_read (e ∷ []) ∷ rest)) in
    let quiet = find_reply-none corr b.msgs (
      subst (All (λ (m : Message). m.correlation_id ≢ corr))
        (sym (read_messages-read_group unmarshal es)) h.0) in
    rw quiet (
      ih.0,
      λ i. omega (
        arith,
        count_id-append i b.acked (ids_of b.msgs ++ w.1),
        count_id-append i (ids_of b.msgs) w.1,
        count_id-read_group unmarshal i es,
        ih.1 i,
        ap (count_id i) (ids-append es (brought_by ps)),
        count_id-append i (ids es) (ids (brought_by ps)),
      ),
    )
poll_replies_lem unmarshal corr (deadline_passed ∷ ps) h e m d q rest = absurd (cc)
poll_replies_lem unmarshal corr (context_done ∷ ps) h e m d q rest = absurd (cc)
poll_replies_lem unmarshal corr (read_failed ∷ ps) h e m d q rest = absurd (cc)

-- A caller that waits for a reply gets the first message with its correlation id, when that comes
-- before the deadline, the end of its context and any error; and each entry read up to then, of
-- other correlations or undecodable too, is acknowledged as often as it was read, and no other.
-- (The reply comes alone, as the code reads one entry at a time.)
pub wait_for_reply_lem :
    (unmarshal : String → Option Message) (corr : String) (polls : List ReplyPoll)
    → All (BringsNone unmarshal corr) polls
    → (e : Entry) (m : Message) → decode_from_stream unmarshal e.text ≡ some m
    → m.correlation_id ≡ corr
    → (rest : List ReplyPoll)
    → let w = wait_for_reply unmarshal corr true (polls ++ (entries_read (e ∷ []) ∷ rest)) in
      (w.0 ≡ replied m)
      × ((i : String)
          → count_id i w.1 ≡ count_id i (ids (brought_by polls)) + count_id i (e.id ∷ []))
unfolding wait_for_reply
wait_for_reply_lem = poll_replies_lem
