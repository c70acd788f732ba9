-- ===== src/Examples/Agents.antt =====
-- The agents, the proxy and the main agent on small inputs.
use microagent.Prelude.{
  ℕ, zero, suc, Bool, true, false, ◌≡◌, ◌≢◌, ◌↔◌, refl, none, some, List, [], ◌∷◌, ◌++◌, map, arith,
}
use microagent.Prelude.Int.{pos}
use microagent.Broker.Llm.{ToolCall}
use microagent.Broker.{
  Env, Message, Broker, handle_message, slot_request, slot_assigned_ack, SlotRequestPayload,
  handle_slot_request, handle_slot_assigned_ack, offer_slot, send_slot_assigned,
}
use microagent.Slots.{
  normalize_class, find_unassigned, assign_provisional, commit_assignment,
  new_slot_table_with_classes, is_owned_by,
}
use microagent.Slots.Ops.{apply_all}
use microagent.Broker.Reach.{new_with_classes, Reach, Reach-WellFormed, start, next, message}
use microagent.Broker.Llm.{LlmRequestPayload, ProxyEvent, handle_llm_request}
use microagent.Response.{is_seen, lookup}
use microagent.Response.Session.{ChatMsg}
use microagent.Gateway.{text_to_output_items}
use microagent.Gateway.Messages.{said}
use microagent.Gateway.Reply.{output_items}
use microagent.Gateway.Agree.{trace_of, Distinct}
use microagent.Gateway.Stream.{waiting}
use microagent.Gateway.Stream.Frames.{heard, joined_tokens}
use microagent.Agent.{
  Ask, Runtime, new_runtime, slot_assigned, timed_out, request_slot, release_slot, no_slot,
  release_message,
}
use microagent.Agent.Served.{all_well, receive, request_slot-release_slot}
use microagent.Slots.{SlotClass}
use microagent.Slots.TwoPhase.{IsFresh}
use microagent.Broker.{Outgoing}
use microagent.Agent.Acquire.{Acquisition, request_slot-Acquisition}
use microagent.Agent.Execute.{
  Round, Read, no_message, token, nothing_yet, execute_loop, running, on_token, on_tool_call,
}
use microagent.Agent.Execute.Outcome.{brought, whole_run, execute_loop_lem}
use microagent.Agent.Execute.Deadline.{execute_loop_ends}
use microagent.LlmProxy.{
  Call, ProxyRequest, ProxyMessage, content_chunk, Outbox, messages, read_failed, completion,
  chunks, role_chunk, content_chunks, final_chunk, done_mark, finish_reason, consume_messages,
  stopped, waiting, aggregate_response, stream_response, handle_chat_completions,
}
use microagent.LlmProxy.Reply.{texts_in, stream_response-aggregate_response}
use microagent.LlmProxy.Sends.{Adds, handle_chat_completions-Conversation}
use microagent.LlmProxy.Shared.{release_of_all_requests}
use microagent.Tools.{
  Tool, returned, gated, schemas_for, find_tool, has, registered, visible_set, invoke_tool,
}
use microagent.Tools.Visible.{names}
use microagent.MainAgent.{
  Deps, Iteration, executed, unfinished, ok_end, allowed_of, visible, invoke_or_gate,
  handle_request, reply_of, turn_loop, after_run, run_calls, run_call, activate, finish_turn,
  resolve_active_skill, get_active, callbacks_sent, noted,
}
use microagent.MainAgent.Paired.{pairs_of, handle_request-output_items}
use microagent.MainAgent.Gated.{invoke_or_gate_iff}
use microagent.MainAgent.Streamed.{events_of}

abbrev ask : Ask
ask = record {
  correlation_id = "c";
  reply_stream = "r";
  request_made = true;
  request_published = true;
  reply = timed_out;
  ack_made = true;
  ack_published = true;
  release_made = true;
  release_published = true;
}

abbrev runtime : Runtime
runtime = new_runtime "main" (pos 0) true

request_slot-Acquisition_example :
    Acquisition ask "d" runtime (request_slot ask "d" runtime).0 (request_slot ask "d" runtime).1
request_slot-Acquisition_example = request_slot-Acquisition ask "d" runtime

abbrev call : ToolCall
call = record { id = "c1"; type = "function"; name = "bash"; arguments = "{}" }

abbrev round : Bool → ℕ → Read → Round
round flag now read = record { flag = flag; armed_at = now; checked_at = now; read = read }

abbrev calm_rounds : List Round
calm_rounds =
    round false 1 (token "a" false)
    ∷ round false 2 (Read.tool_call call)
    ∷ round false 3 (token "" true)
    ∷ []

execute_loop_lem_example :
    execute_loop 5 none nothing_yet calm_rounds ≡ whole_run nothing_yet (brought calm_rounds)
execute_loop_lem_example = execute_loop_lem 5 nothing_yet calm_rounds (refl, (refl, (refl, tt)))

abbrev first_round : Round
first_round = round false 1 (token "a" false)

abbrev signal : Round
signal = round true 2 no_message

abbrev late : Round
late = round true 9 no_message

execute_loop_ends_example :
    (execute_loop 5 none nothing_yet ((first_round ∷ []) ++ (signal ∷ ([] ++ (late ∷ []))))).ended
    ≢ running
execute_loop_ends_example =
    execute_loop_ends 5 nothing_yet (first_round ∷ []) [] [] signal late refl (omega arith, tt)
      (omega arith)

abbrev proxy_call : Call
proxy_call = record {
  identity = "llm-proxy";
  unmarshal = λ s. none;
  correlation_id = "c";
  reply_stream = "r";
  llm_reply_stream = "l";
  request_made = true;
  request_published = true;
  reply = slot_assigned (pos 1);
  ack_made = true;
  ack_published = true;
  release_made = true;
  release_published = true;
  llm_made = true;
  llm_published = true;
  group_ensured = true;
  flusher = true;
  first_written = true;
  polls =
      messages (microagent.LlmProxy.token "a" false ∷ [])
      ∷ read_failed
      ∷ messages (microagent.LlmProxy.tool_call call ∷ microagent.LlmProxy.token "" true ∷ [])
      ∷ [];
}

abbrev before_last : List ProxyMessage
before_last = microagent.LlmProxy.token "a" false ∷ microagent.LlmProxy.tool_call call ∷ []

stream_response-aggregate_response_example :
    (aggregate_response proxy_call
      ≡ completion (joined_tokens (texts_in before_last)) (call ∷ []) "tool_calls")
    × (stream_response proxy_call
        ≡ chunks (
            (role_chunk ∷ map content_chunk (texts_in before_last))
            ++ (final_chunk (call ∷ []) "tool_calls" ∷ done_mark ∷ [])))
stream_response-aggregate_response_example =
    stream_response-aggregate_response proxy_call before_last "" [] (tt, (tt, (tt, tt))) refl refl
      refl (refl, (tt, tt))

abbrev proxy_request : ProxyRequest
proxy_request = record { model = "m"; messages = []; stream = false; tools = ""; tool_choice = "" }

abbrev empty_outbox : Outbox
empty_outbox = record { slot_requests = []; llm_requests = [] }

handle_chat_completions-Conversation_example :
    Adds proxy_call "d" proxy_request empty_outbox
      (handle_chat_completions proxy_call "d" (some proxy_request) empty_outbox)
handle_chat_completions-Conversation_example =
    handle_chat_completions-Conversation proxy_call "d" proxy_request empty_outbox

abbrev now : Env
now = record { now = 100; publish_ok = λ s. true; between = [] }

abbrev asks : Message
asks = record { correlation_id = "c"; source = "llm-proxy"; reply_stream = "r" }

abbrev wants : SlotRequestPayload
wants = record { agent_id = "llm-proxy"; priority = pos 0; slot_class = "hindsight" }

-- A broker with two slots of each class, one of them served to the proxy.
abbrev serving : Broker
serving =
    handle_message now asks
      (slot_assigned_ack (some (record { agent_id = "llm-proxy"; slot_id = pos 2 })))
      (handle_message now asks (slot_request (some wants)) (new_with_classes (pos 2) (pos 2)))

serving-Reach : Reach (pos 2) (pos 2) serving
serving-Reach = next (next start (message now asks _)) (message now asks _)

none_waiting : serving.pending_queue ≡ []
unfolding handle_message handle_slot_request handle_slot_assigned_ack offer_slot send_slot_assigned
    normalize_class find_unassigned assign_provisional commit_assignment new_slot_table_with_classes
    apply_all
none_waiting = refl

served_test : is_owned_by (pos 2) "llm-proxy" serving.slots ≡ true
unfolding handle_message handle_slot_request handle_slot_assigned_ack offer_slot send_slot_assigned
    normalize_class find_unassigned assign_provisional commit_assignment new_slot_table_with_classes
    apply_all is_owned_by
served_test = refl

abbrev idle : Broker
idle = new_with_classes (pos 2) (pos 2)

fresh : IsFresh "c" idle.slots
unfolding new_slot_table_with_classes
fresh = (refl, (refl, (refl, (refl, tt))))

first_free : find_unassigned SlotClass.agent idle.slots ≡ some 0
unfolding new_slot_table_with_classes find_unassigned
first_free = refl

request_slot-release_slot_example :
    let ask = all_well "c" "r" (pos 0) in
    let holding = (request_slot ask "d" (new_runtime "main" (pos 0) true)).1 in
    let freed = (release_slot ask "d" holding).1 in
    let served = receive now holding.sent idle in
    (served.published ≡ Outgoing.slot_assigned "r" "c" 0 ∷ idle.published)
    × ((request : Message) (llm : LlmRequestPayload) (events : List ProxyEvent)
        → request.source ≡ "main"
        → llm.slot_id ≡ holding.slot_id
        → normalize_class llm.slot_class ≡ (SlotClass.agent, true)
        → (handle_llm_request served.slots request (some llm) events).proxied ≡ true)
    × ((receive now freed.sent idle).slots ≡ idle.slots)
request_slot-release_slot_example =
    request_slot-release_slot now "c" "d" "r" "main" (pos 0) true idle 0
      (Reach-WellFormed (pos 2) (pos 2) start).0 fresh refl refl (λ q. absurd (cc)) refl first_free

abbrev asks_llm : LlmRequestPayload
asks_llm = record { slot_id = pos 2; slot_class = "hindsight" }

release_of_all_requests_example :
    let (m, release) = release_message "d" "llm-proxy" no_slot in
    let after = handle_message now m release serving in
    (handle_llm_request after.slots asks (some asks_llm) []).proxied ≡ false
release_of_all_requests_example =
    release_of_all_requests (pos 2) (pos 2) now "d" asks asks_llm [] serving-Reach none_waiting

abbrev bash_tool : Tool
bash_tool = record { name = "bash"; schema = "{}"; invoke = λ args. returned "done" }

abbrev deps : Deps
deps = record {
  registry = bash_tool ∷ [];
  skills = [];
  base_tools = "bash" ∷ [];
  max_iter = 2;
  json_error = λ s. s;
  decode_object = λ s. none;
  encode_object = λ m. none;
  quote = λ s. s;
  name_field = λ s. none;
  trim_space = λ s. s;
  reachable = true;
}

invoke_or_gate_iff_example : ((invoke_or_gate deps call (visible deps none) "s").1 ≡ gated) ↔ (
    is_seen "bash" (names (schemas_for ("bash" ∷ []) (allowed_of none) (bash_tool ∷ []))) ≡ false)
invoke_or_gate_iff_example = invoke_or_gate_iff deps none call "s"

-- A call, and then an answer.
abbrev runs : ℕ → Iteration
runs n = elim n [
  | zero ↦ executed "a" (call ∷ []) (on_token "a" ∷ on_tool_call call ∷ []) ok_end
  | suc m ↦ executed "b" [] (on_token "b" ∷ []) ok_end
]

abbrev pub asked : List ChatMsg
asked = said "user" "hello" ∷ []

one_call :
    let t = handle_request deps runs "s" "r" asked [] in
    Distinct (pairs_of t.all_tool_calls t.all_tool_results)
unfolding handle_request finish_turn turn_loop after_run run_calls run_call activate invoke_or_gate
    resolve_active_skill get_active visible_set registered has find_tool invoke_tool is_seen lookup
one_call = (tt, tt)

handle_request-output_items_example :
    let t = handle_request deps runs "s" "r" asked [] in
    output_items (reply_of t.final_content t)
    ≡ trace_of (pairs_of t.all_tool_calls t.all_tool_results)
      ++ text_to_output_items t.final_content
handle_request-output_items_example =
    handle_request-output_items deps runs "s" "r" asked [] one_call

-- The stream has the text of both runs, the reply that of the last.
two_texts_test :
    let t = handle_request deps runs "s" "r" asked [] in
    (t.final_content ≡ "b") × ((heard (events_of t.published)).tokens ≡ "a" ∷ "b" ∷ [])
unfolding handle_request finish_turn turn_loop after_run run_calls run_call activate invoke_or_gate
    resolve_active_skill get_active visible_set registered has find_tool invoke_tool is_seen lookup
    callbacks_sent heard noted
two_texts_test = (refl, refl)

-- A run that never returns: its token is heard, and the stream waits on.
never_returns_test :
    let t = handle_request deps (λ n. unfinished (on_token "a" ∷ [])) "s" "r" asked [] in
    ((heard (events_of t.published)).ending ≡ waiting)
    × ((heard (events_of t.published)).tokens ≡ "a" ∷ [])
unfolding handle_request finish_turn turn_loop resolve_active_skill get_active callbacks_sent heard
never_returns_test = (refl, refl)
