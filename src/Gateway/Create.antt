-- ===== src/Gateway/Create.antt =====
-- `handleCreateResponse` and `handleGetResponse` of internal/gateway/responses.go.
-- A request body that does not decode is `none`. `agent` is what the agent sends when it is asked.
use Prim.Native.String.{◌++◌ as str_append}
use microagent.Prelude.{
  ℕ, String, Bool, true, false, not, Option, none, some, List, [], ◌∷◌, ◌++◌, if◌then◌else◌,
}
use microagent.Prelude.Text.{str_eq}
use microagent.Response.{
  Response, Store, Failure, redis_error, json_error, cycle_detected, response_not_found, Result, ok,
  failed, walk_chain, get,
}
use microagent.Response.Content.{InputItem}
use microagent.Response.Session.{ChatMsg}
use microagent.Gateway.{
  Env, World, ChatRequest, HandlerErr, invalid_request, internal_error, RawInput, Parsed, items,
  unparsed, parse_input, SessionDecision, Decided, decided, refused, decide_session,
  resolve_speaker_id, Turn, ResponsesResponse,
}
use microagent.Gateway.Messages.{input_items_to_messages, chain_to_messages}
use microagent.Gateway.Reply.{Reply, Answer, handle_responses_non_streaming}
use microagent.Gateway.Stream.{StreamEvent, StreamAnswer, handle_responses_streaming}

-- The fields of `responsesRequest` that the handler reads; `store` may be missing.
pub record ResponsesRequest : Type 0 where
  pub input : RawInput
  pub model : String
  pub previous_response_id : String
  pub stream : Bool
  pub store : Option Bool
  pub speaker_id : String

pub record Agent : Type 0 where
  pub reply : Reply
  pub events : List StreamEvent

pub data CreateAnswer : Type 0 where
  rejected : HandlerErr → CreateAnswer
  whole : Answer → CreateAnswer
  stream : StreamAnswer → CreateAnswer

abbrev pub error_text : Env → Failure → String
error_text env redis_error = env.redis_text
error_text env json_error = env.json_text
error_text env (cycle_detected id) = str_append "cycle detected in response chain at " id
error_text env (response_not_found id) = str_append "response not found: " id

abbrev pub should_store : Option Bool → Bool
should_store none = true
should_store (some b) = b

abbrev pub chain_history : Result (List Response) → Result (List ChatMsg)
chain_history (ok chain) = ok (chain_to_messages chain)
chain_history (failed e) = failed e

-- The history that the request continues, `none` when the walk of its chain has no end.
unfoldable pub history_of : Env → Store → String → Option (Result (List ChatMsg))
history_of env s prev =
    if str_eq prev "" then some (ok []) else elim (walk_chain env.up env.json s prev) [
      | none ↦ none
      | some chain ↦ some (chain_history chain)
    ]

abbrev pub chat_request :
    Env → ResponsesRequest → SessionDecision → String → List ChatMsg → ChatRequest
chat_request env req d speaker msgs = record {
  session_id = d.session_id;
  messages = msgs;
  model = req.model;
  stream = req.stream;
  speaker_id = speaker;
  correlation_id = env.correlation_id;
  reply_stream = str_append "stream:gateway:reply:" env.correlation_id;
}

abbrev pub turn_of : ResponsesRequest → SessionDecision → List InputItem → String → Turn
turn_of req d its speaker = record {
  session_id = d.session_id;
  model = req.model;
  previous_response_id = d.effective_prev_resp_id;
  input_items = its;
  store = should_store req.store;
  speaker_id = speaker;
}

-- What follows the publishing.
unfoldable pub run_turn : Env → Agent → Bool → Turn → World → CreateAnswer × World
run_turn env agent true t w =
    let (a, w') = handle_responses_streaming env t agent.events w in (stream a, w')
run_turn env agent false t w =
    let (a, w') = handle_responses_non_streaming env t agent.reply w in (whole a, w')

unfoldable pub publish_chat :
    Env
    → Agent
    → ResponsesRequest
    → SessionDecision
    → List InputItem
    → List ChatMsg
    → World
    → CreateAnswer × World
publish_chat env agent req d its history w =
    let speaker = resolve_speaker_id env w.store req.speaker_id req.previous_response_id true in
    let msgs = history ++ input_items_to_messages its in
    if not env.message_made
    then (rejected (internal_error "Failed to create message"), w)
    else if not env.published
    then (rejected (internal_error "Failed to publish request"), w)
    else run_turn env agent req.stream (turn_of req d its speaker)
        (record w { requests = w.requests ++ (chat_request env req d speaker msgs ∷ []) })

abbrev pub with_history :
    Env
    → Agent
    → ResponsesRequest
    → SessionDecision
    → List InputItem
    → World
    → Option (Result (List ChatMsg))
    → Option (CreateAnswer × World)
with_history env agent req d its w none = none
with_history env agent req d its w (some (failed e)) = some (
  rejected (invalid_request (str_append "failed to resolve response chain: " (error_text env e))),
  w,
)
with_history env agent req d its w (some (ok history)) =
    some (publish_chat env agent req d its history w)

abbrev pub with_decision :
    Env
    → Agent
    → ResponsesRequest
    → List InputItem
    → World
    → Decided
    → Option (CreateAnswer × World)
with_decision env agent req its w (refused e) = some (rejected e, w)
with_decision env agent req its w (decided d) =
    with_history env agent req d its w (history_of env w.store req.previous_response_id)

abbrev pub with_items :
    Env → Agent → ResponsesRequest → World → Parsed → Option (CreateAnswer × World)
with_items env agent req w (unparsed msg) = some (rejected (invalid_request msg), w)
with_items env agent req w (items []) =
    some (rejected (invalid_request "input is required and must not be empty"), w)
with_items env agent req w (items (it ∷ its)) =
    with_decision env agent req (it ∷ its) w
      (decide_session env w.store req.previous_response_id (should_store req.store) (it ∷ its))

-- `none` when the walk of the chain of responses has no end.
unfoldable pub handle_create_response :
    Env → Agent → Option ResponsesRequest → World → Option (CreateAnswer × World)
handle_create_response env agent none w =
    some (rejected (invalid_request "Failed to parse request body"), w)
handle_create_response env agent (some req) w =
    with_items env agent req w (parse_input env.json req.input)

-- `parseTimestamp`, with `time.Parse` as a parameter.
unfoldable pub parse_timestamp : (String → Option ℕ) → Env → String → ℕ
parse_timestamp parse env ts = elim (parse ts) [ none ↦ env.unix_time | some t ↦ t ]

abbrev pub fetched : (String → Option ℕ) → Env → Response → ResponsesResponse
fetched parse env r = record {
  id = r.id;
  object = "response";
  created_at = parse_timestamp parse env r.created_at;
  model = r.model;
  session_id = r.session_id;
  previous_response_id = r.previous_response_id;
  output = r.output;
  status = r.status;
}

unfoldable pub handle_get_response : (String → Option ℕ) → Env → String → Store → Answer
handle_get_response parse env id s = elim (get env.up env.json id s) [
  | failed e ↦ Answer.error (internal_error "Failed to retrieve response")
  | ok none ↦ Answer.error (record { status = 404; code = "not_found"; msg = "Response not found" })
  | ok (some r) ↦ Answer.body (fetched parse env r)
]
