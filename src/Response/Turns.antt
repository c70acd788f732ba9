-- ===== src/Response/Turns.antt =====
-- internal/response/store.go: what `Save` leaves for the reads.
use mathlib.Core.Path.{subst}
use microagent.Prelude.{
  ℕ, suc, String, ◌≡◌, ◌≢◌, refl, sym, ap, ◌∙◌, Bool, true, false, Option, none, some, List, [],
  ◌∷◌, ◌++◌, append-nil, append_assoc, arith, Bool-cases, inl, inr, if◌then◌else◌,
}
use microagent.Prelude.Text.{str_eq, eq_iff, eq_refl}
use microagent.Response.{
  Response, Fields, Store, Result, ok, failed, Codec, is_seen, get, lookup, insert, remove,
  lookup-insert, field, decode_field, write_fields, fields_of, set_response, push_response, save,
  save_pipeline, old_fields, decoded, decode_response, response_key, session_responses_key,
  session_ids,
}
use microagent.Response.Session.{
  ChatMsg, messages_of, input_messages, output_messages, result_messages, read_step, read_all,
  get_session_history, get_session_messages,
}

-- The documents of a response's inputs and outputs, which are read back as they were.
pub record Documents (json : Codec) (r : Response) (i o : String) : Type 0 where
  pub input_written : json.encode_input r.input ≡ some i
  pub input_read : json.decode_input i ≡ some r.input
  pub input_some : i ≢ ""
  pub output_written : json.encode_output r.output ≡ some o
  pub output_read : json.decode_output o ≡ some r.output
  pub output_some : o ≢ ""

insert-cons :
    (k v : String) (m : Fields) → (f : String × String) × (fs : Fields) × (insert k v m ≡ f ∷ fs)
unfolding insert
insert-cons k v m = ((k, v), remove k m, refl)

field-insert :
    (k j v : String) (m : Fields) → field j (insert k v m) ≡ (if str_eq k j then v else field j m)
field-insert k j v m = elim (Bool-cases (str_eq k j)) [
  | inl e ↦ rw (lookup-insert k j v m, e) refl
  | inr e ↦ rw (lookup-insert k j v m, e) refl
]

decode_response_fields :
    (json : Codec) (r : Response) (vals : Fields)
    → decode_field json.decode_input (field "input" vals) ≡ some r.input
    → decode_field json.decode_output (field "output" vals) ≡ some r.output
    → decode_response json vals
      ≡ ok (record {
        id = field "id" vals;
        input = r.input;
        output = r.output;
        previous_response_id = field "previous_response_id" vals;
        session_id = field "session_id" vals;
        speaker_id = field "speaker_id" vals;
        model = field "model" vals;
        created_at = field "created_at" vals;
        status = field "status" vals;
      })
unfolding decode_response
decode_response_fields json r vals ei eo = rw (ei, eo, decode_response) refl

decode_field_some :
    {A : Type 0} (decode : String → Option (List A)) (v : String)
    → v ≢ ""
    → decode_field decode v ≡ decode v
decode_field_some decode v h =
    let q : str_eq v "" ≡ false = ground (arith, eq_iff v "") in rw q refl

decode_response-written :
    (json : Codec) (r : Response) (i o : String) (old : Fields)
    → Documents json r i o
    → decode_response json (write_fields (fields_of r i o) old) ≡ ok r
unfolding write_fields
decode_response-written json r i o old d =
    let vals = write_fields (fields_of r i o) old in
    let fi : field "input" vals ≡ i = simp (field-insert) in
    let fo : field "output" vals ≡ o = simp (field-insert) in
    decode_response_fields json r vals
      (ap (decode_field json.decode_input) fi
        ∙ decode_field_some json.decode_input i d.input_some
        ∙ d.input_read)
      (ap (decode_field json.decode_output) fo
        ∙ decode_field_some json.decode_output o d.output_some
        ∙ d.output_read)
    ∙ simp (field-insert)

write_fields-cons :
    (r : Response) (i o : String) (old : Fields)
    → (f : String × String) × (fs : Fields) × (write_fields (fields_of r i o) old ≡ f ∷ fs)
unfolding write_fields
write_fields-cons r i o old = insert-cons "id" r.id _

-- The store after both commands of the pipeline.
abbrev pub saved : Response → String → String → Store → Store
saved r i o s = push_response r.session_id r.id (set_response r.id (fields_of r i o) s)

save_whole :
    (json : Codec) (n : ℕ) (r : Response) (s : Store) {i o : String}
    → Documents json r i o
    → save json (suc (suc n)) r s ≡ (none, saved r i o s)
unfolding save save_pipeline
save_whole json n r s d = rw (d.input_written, d.output_written, save) refl

-- The history with one more response, unless it could not be read.
abbrev pub extended : Result (List Response) → Response → Result (List Response)
extended (failed e) r = failed e
extended (ok rs) r = ok (rs ++ (r ∷ []))

read_step-extended :
    (answer : Result (Option Response)) (rest : Result (List Response)) (r : Response)
    → read_step answer (extended rest r) ≡ extended (read_step answer rest) r
read_step-extended (failed e) rest r = refl
read_step-extended (ok none) rest r = refl
read_step-extended (ok (some x)) (failed e) r = refl
read_step-extended (ok (some x)) (ok rs) r = refl

messages_of-append :
    (rs : List Response) (r : Response)
    → messages_of (rs ++ (r ∷ []))
      ≡ messages_of rs ++ (input_messages r.input ++ output_messages r.output)
unfolding messages_of
messages_of-append [] r = ap (input_messages r.input ++◌) (append-nil (output_messages r.output))
messages_of-append (x ∷ rs) r =
    let own = input_messages r.input ++ output_messages r.output in
    ap (λ ms. input_messages x.input ++ (output_messages x.output ++ ms)) (messages_of-append rs r)
    ∙ ap (input_messages x.input ++◌)
        (sym (append_assoc (output_messages x.output) (messages_of rs) own))
    ∙ sym (append_assoc (input_messages x.input) (output_messages x.output ++ messages_of rs) own)

-- The messages with those of one more response, unless they could not be read.
abbrev pub with_turn : Result (List ChatMsg) → Response → Result (List ChatMsg)
with_turn (failed e) r = failed e
with_turn (ok ms) r = ok (ms ++ (input_messages r.input ++ output_messages r.output))

result_messages-extended :
    (h : Result (List Response)) (r : Response)
    → result_messages (extended h r) ≡ with_turn (result_messages h) r
result_messages-extended (failed e) r = refl
result_messages-extended (ok rs) r = ap ok (messages_of-append rs r)

module _ (up : String → Bool) (json : Codec) where
  get_stored :
      (id : String) (s : Store) {f : String × String} {fs : Fields}
      → up (response_key id) ≡ true
      → lookup id s.responses ≡ some (f ∷ fs)
      → get up json id s ≡ decoded json (f ∷ fs)
  unfolding get
  get_stored id s q e = rw (q, e) refl

  get-lookup :
      (id : String) (s t : Store)
      → lookup id s.responses ≡ lookup id t.responses
      → get up json id s ≡ get up json id t
  unfolding get
  get-lookup id s t e = rw e refl

  get-saved_self :
      (r : Response) (s : Store) (i o : String)
      → up (response_key r.id) ≡ true
      → Documents json r i o
      → get up json r.id (saved r i o s) ≡ ok (some r)
  get-saved_self r s i o q d =
      let old = old_fields (lookup r.id s.responses) in
      let w = write_fields (fields_of r i o) old in
      let (f, fs, c) = write_fields-cons r i o old in
      let here : lookup r.id (insert r.id w s.responses) ≡ some (f ∷ fs) =
        rw (lookup-insert r.id r.id w s.responses, eq_refl r.id) (ap some c) in
      let read : decode_response json (f ∷ fs) ≡ ok r =
        subst (λ x. decode_response json x ≡ ok r) c (decode_response-written json r i o old d) in
      get_stored r.id (saved r i o s) q here ∙ rw (read, decoded) refl

  get-saved_other :
      (r : Response) (s : Store) (i o id : String)
      → r.id ≢ id
      → get up json id (saved r i o s) ≡ get up json id s
  get-saved_other r s i o id ne =
      let n : str_eq r.id id ≡ false = ground (arith, eq_iff r.id id) in
      get-lookup id (saved r i o s) s (rw (lookup-insert r.id id _ s.responses, n) refl)

  -- A saved response is read back as it was, and every other id reads as before: when the pipeline
  -- is carried out, the response's key can be read, and its JSON documents are not empty and decode
  -- to what they were made from.
  pub get-save :
      (n : ℕ) (r : Response) (s : Store) (i o : String)
      → up (response_key r.id) ≡ true
      → Documents json r i o
      → ((save json (suc (suc n)) r s).0 ≡ none)
        × (get up json r.id (save json (suc (suc n)) r s).1 ≡ ok (some r))
        × ((id : String)
            → r.id ≢ id
            → get up json id (save json (suc (suc n)) r s).1 ≡ get up json id s)
  get-save n r s i o q d =
      rw (save_whole json n r s d) (refl, get-saved_self r s i o q d, get-saved_other r s i o)

  read_all-saved :
      (r : Response) (s : Store) (i o : String) (ids : List String)
      → is_seen r.id ids ≡ false
      → read_all up json (saved r i o s) ids ≡ read_all up json s ids
  unfolding read_all is_seen
  read_all-saved r s i o [] h = refl
  read_all-saved r s i o (id ∷ ids) h =
      let ne : r.id ≢ id = ground (arith, eq_iff id r.id) in
      let h' : is_seen r.id ids ≡ false = ground (arith, eq_iff id r.id) in
      ap (λ a. read_step a (read_all up json (saved r i o s) ids)) (get-saved_other r s i o id ne)
      ∙ ap (read_step (get up json id s)) (read_all-saved r s i o ids h')

  read_all-append :
      (s : Store) (ids : List String) (id : String) {r : Response}
      → get up json id s ≡ ok (some r)
      → read_all up json s (ids ++ (id ∷ [])) ≡ extended (read_all up json s ids) r
  unfolding read_all
  read_all-append s [] id g = rw (g, read_all) refl
  read_all-append s (x ∷ ids) id {r} g =
      ap (read_step (get up json x s)) (read_all-append s ids id g)
      ∙ read_step-extended (get up json x s) (read_all up json s ids) r

  -- Saving a response under an id that its session does not list adds the messages of its inputs
  -- and then of its outputs to the end of the session's messages, and an earlier response that
  -- cannot be read fails the reading as before: when the pipeline is carried out, the session's
  -- list and the response's key can be read, and its JSON documents are not empty and decode to
  -- what they were made from.
  pub get_session_messages-save :
      (n : ℕ) (r : Response) (s : Store) (i o : String)
      → up (session_responses_key r.session_id) ≡ true
      → up (response_key r.id) ≡ true
      → Documents json r i o
      → is_seen r.id (session_ids r.session_id s) ≡ false
      → get_session_messages up json r.session_id (save json (suc (suc n)) r s).1
        ≡ with_turn (get_session_messages up json r.session_id s) r
  unfolding get_session_messages get_session_history
  get_session_messages-save n r s i o ql q d new =
      let ids = session_ids r.session_id s in
      let listed : session_ids r.session_id (saved r i o s) ≡ ids ++ (r.id ∷ []) =
        rw
          (
            lookup-insert r.session_id r.session_id (ids ++ (r.id ∷ [])) s.sessions,
            eq_refl r.session_id,
          )
          refl in
      let read =
        ap (read_all up json (saved r i o s)) listed
        ∙ read_all-append (saved r i o s) ids r.id (get-saved_self r s i o q d)
        ∙ ap (λ h. extended h r) (read_all-saved r s i o ids new) in
      rw (save_whole json n r s d, ql)
        (ap result_messages read ∙ result_messages-extended (read_all up json s ids) r)
