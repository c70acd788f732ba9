-- ===== src/Gateway/State.antt =====
-- internal/gateway/responses.go: the types of the gateway's handlers.
use microagent.Prelude.{ℕ, String, Bool, Option, List}
use microagent.Response.{Store, Codec}
use microagent.Response.Content.{InputItem, OutputItem}
use microagent.Response.Session.{ChatMsg}

pub record Env : Type 0 where
  -- Redis: the keys that can be reached, and how many commands of a pipeline are carried out.
  pub up : String → Bool
  pub saved_commands : ℕ
  pub json : Codec
  pub to_lower : String → String
  pub digest : String → String
  -- The texts of the errors of Redis and of the JSON package.
  pub redis_text : String
  pub json_text : String
  -- The header `X-Speaker-ID`, and the `PrimaryUserID` that the configuration gives.
  pub speaker_header : String
  pub primary_user_id : String
  pub new_session_id : String
  pub response_id : String
  pub correlation_id : String
  -- The time, as a text in RFC 3339 and in seconds.
  pub created_at : String
  pub unix_time : ℕ
  -- Whether the chat request is made (`NewMessage`) and published, whether the event of a completed
  -- turn is, and whether the writer is a flusher.
  pub message_made : Bool
  pub published : Bool
  pub announced : Bool
  pub flusher : Bool
  -- Whether the `DEL` of a lock that is given back is carried out.
  pub unlocked : Bool

-- A `ChatRequestPayload` with the correlation id and the reply stream of its message.
pub record ChatRequest : Type 0 where
  pub session_id : String
  pub messages : List ChatMsg
  pub model : String
  pub stream : Bool
  pub speaker_id : String
  pub correlation_id : String
  pub reply_stream : String

pub record World : Type 0 where
  pub store : Store
  pub requests : List ChatRequest
  pub turns_completed : List String

-- `handlerErr`, and what `writeError` is called with.
pub record HandlerErr : Type 0 where
  pub status : ℕ
  pub code : String
  pub msg : String

abbrev pub invalid_request : String → HandlerErr
invalid_request msg = record { status = 400; code = "invalid_request"; msg = msg }

abbrev pub internal_error : String → HandlerErr
internal_error msg = record { status = 500; code = "internal_error"; msg = msg }

-- The value of `input`: a text, a list with the JSON document that `Marshal` makes of it, or
-- another.
pub data RawInput : Type 0 where
  text_input : String → RawInput
  list_input : Option String → RawInput
  other_input : RawInput

pub data Parsed : Type 0 where
  items : List InputItem → Parsed
  unparsed : String → Parsed

pub record SessionDecision : Type 0 where
  pub session_id : String
  pub effective_prev_resp_id : String
  pub stitch_prefix_hash : String
  pub stitched : Bool

pub data Decided : Type 0 where
  decided : SessionDecision → Decided
  refused : HandlerErr → Decided

-- The arguments that the handlers of one turn share.
pub record Turn : Type 0 where
  pub session_id : String
  pub model : String
  pub previous_response_id : String
  pub input_items : List InputItem
  pub store : Bool
  pub speaker_id : String

-- `responsesResponse`
pub record ResponsesResponse : Type 0 where
  pub id : String
  pub object : String
  pub created_at : ℕ
  pub model : String
  pub session_id : String
  pub previous_response_id : String
  pub output : List OutputItem
  pub status : String
