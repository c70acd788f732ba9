-- ===== src/Messaging/Entries.antt =====
-- internal/messaging: what a read of a stream brings of its entries.
use microagent.Prelude.{
  ℕ, ◌+◌, String, Bool, true, false, ◌≡◌, refl, ap, ◌∙◌, Option, none, some, List, [], ◌∷◌, ◌++◌,
  arith,
}
use microagent.Prelude.Text.{str_eq}
use microagent.Messaging.{Message, Entry, decode_from_stream, Batch, put_entry, read_group}

abbrev pub one_if : Bool → ℕ
one_if true = 1
one_if false = 0

-- How often an id occurs.
abbrev pub count_id : String → List String → ℕ
count_id id [] = 0
count_id id (i ∷ is) = one_if (str_eq i id) + count_id id is

pub count_id-append :
    (id : String) (is js : List String) → count_id id (is ++ js) ≡ count_id id is + count_id id js
count_id-append id [] js = omega arith
count_id-append id (i ∷ is) js = omega (arith, count_id-append id is js)

abbrev pub ids : List Entry → List String
ids [] = []
ids (e ∷ es) = e.id ∷ ids es

pub ids-append : (es fs : List Entry) → ids (es ++ fs) ≡ ids es ++ ids fs
ids-append [] fs = refl
ids-append (e ∷ es) fs = ap (e.id ∷◌) (ids-append es fs)

abbrev pub with_decoded : Option Message → List Message → List Message
with_decoded none ms = ms
with_decoded (some m) ms = m ∷ ms

-- The messages among entries.
abbrev pub messages_in : (String → Option Message) → List Entry → List Message
messages_in unmarshal [] = []
messages_in unmarshal (e ∷ es) =
    with_decoded (decode_from_stream unmarshal e.text) (messages_in unmarshal es)

pub messages_in-append :
    (unmarshal : String → Option Message) (es fs : List Entry)
    → messages_in unmarshal (es ++ fs) ≡ messages_in unmarshal es ++ messages_in unmarshal fs
messages_in-append unmarshal [] fs = refl
messages_in-append unmarshal (e ∷ es) fs =
    rw (messages_in-append unmarshal es fs)
      (with_append (decode_from_stream unmarshal e.text) (messages_in unmarshal es))
  where
    with_append :
        (o : Option Message) (ms : List Message)
        → with_decoded o (ms ++ messages_in unmarshal fs)
          ≡ with_decoded o ms ++ messages_in unmarshal fs
    with_append none ms = refl
    with_append (some m) ms = refl

abbrev pub read_messages : List (Message × String) → List Message
read_messages [] = []
read_messages ((m, id) ∷ ms) = m ∷ read_messages ms

abbrev pub ids_of : List (Message × String) → List String
ids_of [] = []
ids_of ((m, id) ∷ ms) = id ∷ ids_of ms

put_messages :
    (id : String) (o : Option Message) (b : Batch)
    → read_messages (put_entry id o b).msgs ≡ with_decoded o (read_messages b.msgs)
put_messages id none b = refl
put_messages id (some m) b = refl

pub read_messages-read_group :
    (unmarshal : String → Option Message) (es : List Entry)
    → read_messages (read_group unmarshal es).msgs ≡ messages_in unmarshal es
unfolding read_group
read_messages-read_group unmarshal [] = refl
read_messages-read_group unmarshal (e ∷ es) =
    put_messages e.id (decode_from_stream unmarshal e.text) (read_group unmarshal es)
    ∙ ap (with_decoded (decode_from_stream unmarshal e.text))
        (read_messages-read_group unmarshal es)

put_counted :
    (i id : String) (o : Option Message) (b : Batch)
    → count_id i (put_entry id o b).acked + count_id i (ids_of (put_entry id o b).msgs)
      ≡ one_if (str_eq id i) + (count_id i b.acked + count_id i (ids_of b.msgs))
put_counted i id none b = omega arith
put_counted i id (some m) b = omega arith

-- Every entry is either acknowledged by the read or one of its messages.
pub count_id-read_group :
    (unmarshal : String → Option Message) (i : String) (es : List Entry)
    → let b = read_group unmarshal es in
      count_id i b.acked + count_id i (ids_of b.msgs) ≡ count_id i (ids es)
unfolding read_group
count_id-read_group unmarshal i [] = refl
count_id-read_group unmarshal i (e ∷ es) =
    put_counted i e.id (decode_from_stream unmarshal e.text) (read_group unmarshal es)
    ∙ ap (one_if (str_eq e.id i) +◌) (count_id-read_group unmarshal i es)
