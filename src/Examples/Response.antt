-- ===== src/Examples/Response.antt =====
-- internal/response on a small store.
use microagent.Prelude.{
  All, String, Bool, true, false, ◌≡◌, ◌≢◌, ◌↔◌, refl, none, some, List, [], ◌∷◌, arith,
  if◌then◌else◌,
}
use microagent.Prelude.Text.{str_eq, eq_iff}
use microagent.Response.{
  Response, Store, empty_store, ok, failed, Codec, get, save, walk_chain, response_key, session_ids,
  walk, visit, decode_response, save_pipeline, write_fields, lookup, insert, remove, is_seen,
  cycle_detected, response_not_found,
}
use microagent.Response.Content.{
  AnyPart, object, no_object, plain, any_parts, parts, InputItem, OutputItem, flatten_content,
  flatten_any, flatten_parts, write_part, canonical,
}
use microagent.Response.Content.Canonical.{turns, canonical_iff, Clean, is_without-Without}
use microagent.Response.Chain.{Outcome, walk_chain_lem}
use microagent.Response.Session.{
  get_session_messages, get_session_history, session_exists, delete_session,
}
use microagent.Response.Session.Delete.{delete_session_lem}
use microagent.Response.Turns.{Documents, with_turn, get_session_messages-save}

abbrev pub up : String → Bool
up k = true

abbrev pub question : InputItem
question = record {
  type = "message";
  role = "user";
  content = plain "hello";
  call_id = "";
  name = "";
  args = "";
  output = "";
}

abbrev pub answer : OutputItem
answer = record {
  type = "message";
  role = "assistant";
  content = record { type = "output_text"; text = "hi" } ∷ [];
  call_id = "";
  name = "";
  args = "";
  output = "";
}

-- The documents of the items of this file.
abbrev pub json : Codec
json = record {
  encode_input = λ items. some "[question]";
  decode_input = λ doc. if str_eq doc "[question]" then some (question ∷ []) else none;
  encode_output = λ items. some "[answer]";
  decode_output = λ doc. if str_eq doc "[answer]" then some (answer ∷ []) else none;
}

abbrev turn_of : String → String → Response
turn_of id previous = record {
  id = id;
  input = question ∷ [];
  output = answer ∷ [];
  previous_response_id = previous;
  session_id = "s";
  speaker_id = "ann";
  model = "m";
  created_at = "t";
  status = "completed";
}

abbrev first : Response
first = turn_of "r1" ""

abbrev second : Response
second = turn_of "r2" "r1"

abbrev one_turn : Store
one_turn = (save json 2 first empty_store).1

abbrev two_turns : Store
two_turns = (save json 2 second one_turn).1

abbrev a_cycle : Store
a_cycle = (save json 2 (turn_of "r1" "r2") two_turns).1

pub documents :
    (r : Response)
    → r.input ≡ question ∷ []
    → r.output ≡ answer ∷ []
    → Documents json r "[question]" "[answer]"
documents r ei eo = record {
  input_written = refl;
  input_read = rw ei refl;
  input_some = ground (arith, eq_iff "[question]" "");
  output_written = refl;
  output_read = rw eo refl;
  output_some = ground (arith, eq_iff "[answer]" "");
}

walk_test : walk_chain up json two_turns "r2" ≡ some (ok (first ∷ second ∷ []))
unfolding walk_chain walk visit get decode_response save save_pipeline write_fields lookup insert
    remove is_seen
walk_test = refl

walk_cycle_test : walk_chain up json a_cycle "r2" ≡ some (failed (cycle_detected "r2"))
unfolding walk_chain walk visit get decode_response save save_pipeline write_fields lookup insert
    remove is_seen
walk_cycle_test = refl

walk_missing_test : walk_chain up json two_turns "r3" ≡ some (failed (response_not_found "r3"))
unfolding walk_chain walk visit get decode_response save save_pipeline write_fields lookup insert
    remove is_seen
walk_missing_test = refl

walk_chain_lem_example : Outcome up json two_turns "r2" (walk_chain up json two_turns "r2")
walk_chain_lem_example = walk_chain_lem up json two_turns "r2"

not_listed : is_seen "r2" (session_ids "s" one_turn) ≡ false
unfolding save save_pipeline lookup insert remove is_seen
not_listed = refl

get_session_messages-save_example :
    get_session_messages up json "s" (save json 2 second one_turn).1
    ≡ with_turn (get_session_messages up json "s" one_turn) second
get_session_messages-save_example =
    get_session_messages-save up json 0 second one_turn "[question]" "[answer]" refl refl
      (documents second refl refl) not_listed

delete_session_lem_example :
    (after : Store) × (delete_session up true 0 "s" two_turns ≡ (none, after))
    × (session_exists up "s" after ≡ ok false)
    × (get_session_history up json "s" after ≡ ok [])
    × ((id : String)
        → is_seen id (session_ids "s" two_turns) ≡ true
        → up (response_key id) ≡ true
        → get up json id after ≡ ok none)
    × ((id : String)
        → is_seen id (session_ids "s" two_turns) ≡ false
        → get up json id after ≡ get up json id two_turns)
    × ((other : String) → "s" ≢ other → session_ids other after ≡ session_ids other two_turns)
delete_session_lem_example = delete_session_lem up json 0 "s" two_turns refl

abbrev some_parts : List AnyPart
some_parts = object "input_text" "one" ∷ object "image" "x" ∷ no_object ∷ object "" "two" ∷ []

flatten_test : flatten_content (any_parts some_parts) ≡ "one two"
unfolding flatten_content flatten_any write_part
flatten_test = refl

-- The roles of these runs are in lower case.
abbrev pub to_lower : String → String
to_lower s = s

abbrev as_parts : InputItem
as_parts = record question { content = parts (record { type = "text"; text = "hello" } ∷ []) }

user-Clean : Clean ("user", "hello")
user-Clean = (is_without-Without "\0" "user" refl, is_without-Without "\u{1e}" "hello" refl)

question-Clean : All Clean (turns to_lower (question ∷ []))
unfolding flatten_content
question-Clean = (user-Clean, tt)

parts-Clean : All Clean (turns to_lower (as_parts ∷ []))
unfolding flatten_content flatten_parts write_part
parts-Clean = (user-Clean, tt)

canonical_iff_example :
    (canonical to_lower (question ∷ []) ≡ canonical to_lower (as_parts ∷ []))
    ↔ (turns to_lower (question ∷ []) ≡ turns to_lower (as_parts ∷ []))
canonical_iff_example =
    canonical_iff to_lower (question ∷ []) (as_parts ∷ []) question-Clean parts-Clean
