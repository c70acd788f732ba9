-- ===== src/Response.antt =====
-- internal/response/store.go: the responses and the sessions that are kept in Redis. The hash of a
-- response and the list of a session are two maps of the model, by the id in their key;
-- `response_key` and `session_responses_key` are the keys themselves. `up k` says whether a command
-- on key `k` succeeds; of a pipeline a number of commands has been carried out when it fails. JSON
-- encoding is a parameter, `none` for an error. Contexts and expiry times are left out.
mod Maps
pub mod Content
pub mod Chain
pub mod Session
pub mod Keys
pub mod Turns
unfoldable pub use Maps.*
use Prim.Native.String.{◌++◌ as str_append, slice, len}
use microagent.Prelude.{
  ℕ, zero, suc, ◌-◌, ◌+◌, String, Bool, true, false, not, ◌||◌, ltb, Option, none, some, List, [],
  ◌∷◌, ◌++◌, if◌then◌else◌, reverse, length,
}
use microagent.Prelude.Text.{str_eq}
use Content.{InputItem, OutputItem}

pub record Response : Type 0 where
  pub id : String
  pub input : List InputItem
  pub output : List OutputItem
  pub previous_response_id : String
  pub session_id : String
  pub speaker_id : String
  pub model : String
  pub created_at : String
  pub status : String

abbrev pub Fields : Type 0
Fields = List (String × String)

-- What the store has written to Redis.
pub record Store : Type 0 where
  pub responses : List (String × Fields)
  pub sessions : List (String × List String)
  pub session_hashes : List (String × String)

abbrev pub empty_store : Store
empty_store = record { responses = []; sessions = []; session_hashes = [] }

pub data Failure : Type 0 where
  redis_error json_error : Failure
  cycle_detected response_not_found : String → Failure

pub data Result {ℓ} (A : Type ℓ) : Type ℓ where
  ok : A → Result A
  failed : Failure → Result A

-- `seen[k]`
unfoldable pub is_seen : String → List String → Bool
is_seen k [] = false
is_seen k (j ∷ js) = str_eq j k || is_seen k js

abbrev pub response_key : String → String
response_key id = str_append "response:" id

abbrev pub session_responses_key : String → String
session_responses_key sid = str_append "session:" (str_append sid ":responses")

abbrev pub session_hash_key : String → String
session_hash_key h = str_append "session_hash:" h

-- A map read at a missing key gives the empty text.
abbrev pub text_or_empty : Option String → String
text_or_empty none = ""
text_or_empty (some s) = s

abbrev pub field : String → Fields → String
field k fields = text_or_empty (lookup k fields)

-- The list of a session; a missing key is an empty list.
abbrev pub list_of : Option (List String) → List String
list_of none = []
list_of (some ids) = ids

abbrev pub session_ids : String → Store → List String
session_ids sid s = list_of (lookup sid s.sessions)

unfoldable pub last : List String → Option String
last [] = none
last (x ∷ []) = some x
last (x ∷ y ∷ xs) = last (y ∷ xs)

-- `json.Marshal` and `json.Unmarshal` of the inputs and outputs of a response.
pub record Codec : Type 0 where
  pub encode_input : List InputItem → Option String
  pub decode_input : String → Option (List InputItem)
  pub encode_output : List OutputItem → Option String
  pub decode_output : String → Option (List OutputItem)

-- `if v := vals[..]; v != "" { json.Unmarshal(..) }`
abbrev pub decode_field : {A : Type 0} → (String → Option (List A)) → String → Option (List A)
decode_field decode v = if str_eq v "" then some [] else decode v

abbrev pub fields_of : Response → String → String → Fields
fields_of r i o =
    ("id", r.id)
    ∷ ("input", i)
    ∷ ("output", o)
    ∷ ("previous_response_id", r.previous_response_id)
    ∷ ("session_id", r.session_id)
    ∷ ("speaker_id", r.speaker_id)
    ∷ ("model", r.model)
    ∷ ("created_at", r.created_at)
    ∷ ("status", r.status)
    ∷ []

-- `HSET`: the given fields are written, others are kept.
unfoldable pub write_fields : Fields → Fields → Fields
write_fields [] old = old
write_fields ((k, v) ∷ new) old = insert k v (write_fields new old)

abbrev pub old_fields : Option Fields → Fields
old_fields none = []
old_fields (some old) = old

abbrev pub set_response : String → Fields → Store → Store
set_response id new s = record s {
  responses = insert id (write_fields new (old_fields (lookup id s.responses))) s.responses;
}

abbrev pub push_response : String → String → Store → Store
push_response sid id s = record s {
  sessions = insert sid (session_ids sid s ++ (id ∷ [])) s.sessions;
}

-- The pipeline of `Save`, when `n` of its two commands are carried out.
unfoldable pub save_pipeline : ℕ → Response → Fields → Store → Option Failure × Store
save_pipeline zero r new s = (some redis_error, s)
save_pipeline (suc zero) r new s = (some redis_error, set_response r.id new s)
save_pipeline (suc (suc n)) r new s =
    (none, push_response r.session_id r.id (set_response r.id new s))

module _ (json : Codec) where
  unfoldable pub decode_response : Fields → Result Response
  decode_response vals = elim (decode_field json.decode_input (field "input" vals)) [
    | none ↦ failed json_error
    | some i ↦ elim (decode_field json.decode_output (field "output" vals)) [
      | none ↦ failed json_error
      | some o ↦ ok (record {
        id = field "id" vals;
        input = i;
        output = o;
        previous_response_id = field "previous_response_id" vals;
        session_id = field "session_id" vals;
        speaker_id = field "speaker_id" vals;
        model = field "model" vals;
        created_at = field "created_at" vals;
        status = field "status" vals;
      })
    ]
  ]

  -- A stored response, or the error of its decoding.
  abbrev pub decoded : Fields → Result (Option Response)
  decoded vals = elim (decode_response vals) [ ok r ↦ ok (some r) | failed e ↦ failed e ]

  unfoldable pub save : ℕ → Response → Store → Option Failure × Store
  save n r s = elim (json.encode_input r.input) [
    | none ↦ (some json_error, s)
    | some i ↦ elim (json.encode_output r.output) [
      | none ↦ (some json_error, s)
      | some o ↦ save_pipeline n r (fields_of r i o) s
    ]
  ]

module _ (up : String → Bool) (json : Codec) where
  -- `Get`: no error and no response for a missing key.
  unfoldable pub get : String → Store → Result (Option Response)
  get id s =
      if not (up (response_key id)) then failed redis_error else elim (lookup id s.responses) [
        | none ↦ ok none
        | some [] ↦ ok none
        | some (f ∷ fs) ↦ decoded json (f ∷ fs)
      ]

  -- One round of the loop of `WalkChain`: the error that it stops with, or the response it reads.
  unfoldable pub visit : Store → List String → String → Result Response
  visit s seen current =
      if is_seen current seen then failed (cycle_detected current) else elim (get current s) [
        | failed e ↦ failed e
        | ok none ↦ failed (response_not_found current)
        | ok (some r) ↦ ok r
      ]

  -- The loop of `WalkChain`, `none` when the fuel is used up.
  unfoldable pub walk :
      ℕ → Store → List String → List Response → String → Option (Result (List Response))
  walk zero s seen chain current = none
  walk (suc fuel) s seen chain current = elim (str_eq current "") [
    | true ↦ some (ok (reverse chain))
    | false ↦ elim (visit s seen current) [
      | failed e ↦ some (failed e)
      | ok r ↦ walk fuel s (current ∷ seen) (chain ++ (r ∷ [])) r.previous_response_id
    ]
  ]

  -- `WalkChain`, with a round for each stored response and two more.
  unfoldable pub walk_chain : Store → String → Option (Result (List Response))
  walk_chain s id = walk (suc (suc (length s.responses))) s [] [] id

  abbrev pub all_input : List Response → List InputItem
  all_input [] = []
  all_input (r ∷ rs) = r.input ++ all_input rs

  abbrev pub all_output : List Response → List OutputItem
  all_output [] = []
  all_output (r ∷ rs) = r.output ++ all_output rs

  unfoldable pub resolve_chain_messages :
      Store → String → Option (Result (List InputItem × List OutputItem))
  resolve_chain_messages s id = elim (walk_chain s id) [
    | none ↦ none
    | some (failed e) ↦ some (failed e)
    | some (ok chain) ↦ some (ok (all_input chain, all_output chain))
  ]

-- `splitSessionKey`
unfoldable pub split_session_key : String → String
split_session_key key =
    if ltb (len key) 18
    then ""
    else if not (str_eq (slice key 0 8) "session:")
        || not (str_eq (slice key (len key - 10) (len key)) ":responses")
    then ""
    else slice key 8 (len key - 10)
