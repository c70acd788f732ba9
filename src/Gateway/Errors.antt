-- ===== src/Gateway/Errors.antt =====
-- `handleCreateResponse` of internal/gateway/responses.go: what becomes of every request.
pub mod Requests
use Prim.Native.String.{◌++◌ as str_append}
use microagent.Prelude.{
  map, arith, String, Bool, true, false, ◌≡◌, refl, sym, ap, ◌∙◌, ◌⊎◌, ◌≢◌, inl, inr, Option, none,
  some, List, [], ◌∷◌, ◌++◌, subst, ltb, length, take, ◌-◌, ◌&&◌, if◌then◌else◌, Bool-cases, not,
}
use microagent.Prelude.Text.{str_eq, eq_iff}
use microagent.Response.{Result, ok, failed, Store}
use microagent.Response.Chain.{walk_chain_lem}
use microagent.Response.Content.{InputItem, OutputItem}
use microagent.Response.Session.{ChatMsg, inherit_session_id, lookup_session_by_prefix_hash}
use microagent.Gateway.{
  Env, World, ChatRequest, HandlerErr, items, unparsed, parse_input, Parsed, SessionDecision,
  Decided, decided, refused, internal_error, decide_session, inherit, stitch, resolve_speaker_id,
  Turn, mint, hash_of, complete_turn, publish_turn_completed,
}
use microagent.Gateway.Messages.{input_items_to_messages}
use microagent.Gateway.Told.{
  told_input, Continues, input_items_to_messages-told, chain_to_messages-told,
}
use microagent.Gateway.Reply.{Reply, reply, timed_out, undecodable, handle_responses_non_streaming}
use microagent.Gateway.Stream.{
  StreamEvent, client_gone, passed_over, tool_called, tool_returned, token, StreamState, no_text,
  stream_loop, handle_responses_streaming, add_token,
}
use microagent.Gateway.Create.{
  ResponsesRequest, Agent, CreateAnswer, rejected, should_store, history_of, chat_request, turn_of,
  run_turn, publish_chat, with_history, with_decision, with_items, handle_create_response,
  chain_history,
}
use microagent.Gateway.Errors.Requests.{run_turn-requests}

-- A request that is turned away changes nothing; any other sends the agent one request.
pub data Handled (env : Env) (agent : Agent) (body : Option ResponsesRequest) (w : World)
    : Option (CreateAnswer × World) → Type 0 where
  turned_away :
      {e : HandlerErr}
      → (e.status ≡ 400) ⊎ (e.status ≡ 500)
      → Handled env agent body w (some (rejected e, w))
  asked :
      {req : ResponsesRequest} {its : List InputItem} {d : SessionDecision} {history : List ChatMsg}
      {answer : CreateAnswer} {after : World}
      → body ≡ some req
      → its ≢ []
      → parse_input env.json req.input ≡ items its
      → decide_session env w.store req.previous_response_id (should_store req.store) its ≡ decided d
      → Continues env w.store req.previous_response_id history
      → after.requests
        ≡ w.requests
          ++ (record {
            session_id = d.session_id;
            messages = history ++ map told_input its;
            model = req.model;
            stream = req.stream;
            speaker_id =
                resolve_speaker_id env w.store req.speaker_id req.previous_response_id true;
            correlation_id = env.correlation_id;
            reply_stream = str_append "stream:gateway:reply:" env.correlation_id;
          }
              ∷ [])
      → Handled env agent body w (some (answer, after))

-- A history that was found is the one that the request continues.
IsHistory : Env → Store → String → Result (List ChatMsg) → Type 0
IsHistory env s prev (ok history) = Continues env s prev history
IsHistory env s prev (failed f) = Unit

history_of-some :
    (env : Env) (s : Store) (prev : String)
    → (h : Result (List ChatMsg)) × (history_of env s prev ≡ some h) × IsHistory env s prev h
unfolding history_of IsHistory
history_of-some env s prev = elim (Bool-cases (str_eq prev "")) [
  | inl e ↦ (ok [], rw e refl, inl ((eq_iff prev "").0 e, refl))
  | inr e ↦ elim (walk_chain_lem env.up env.json s prev) [
    | inl (rs, q, c) ↦ (
      chain_history (ok rs),
      rw (e, q, history_of) refl,
      inr (λ n. absurd (ground (arith, (eq_iff prev "").1 n)), (rs, c, chain_to_messages-told rs)),
    )
    | inr (f, q, b) ↦ (failed f, rw (e, q, history_of) refl, tt)
  ]
]

refused_inherit :
    (prev : String) (r : Result String) (e : HandlerErr)
    → inherit prev r ≡ refused e
    → e.status ≡ 400
refused_inherit prev (failed f) e h =
    sym (ap (λ d. elim d [ decided x ↦ 400 | refused g ↦ g.status ]) h)
refused_inherit prev (ok sid) e h = absurd (cc)

never_refused :
    (env : Env) (s : Store) (hash : String) (r : Result (Option String)) (e : HandlerErr)
    → stitch env s hash r ≢ refused e
never_refused env s hash (failed f) e h = absurd (cc)
never_refused env s hash (ok none) e h = absurd (cc)
never_refused env s hash (ok (some sid)) e h = absurd (cc)

decide_session_status :
    (env : Env) (s : Store) (prev : String) (stores : Bool) (its : List InputItem) (e : HandlerErr)
    → decide_session env s prev stores its ≡ refused e
    → e.status ≡ 400
unfolding decide_session
decide_session_status env s prev stores its e =
    either (not (str_eq prev "")) (stores && ltb 1 (length its))
  where
    either :
        (named stitches : Bool)
        → (let hash = hash_of env (take (length its - 1) its) in
            if named
            then inherit prev (inherit_session_id env.up prev s)
            else if stitches
            then stitch env s hash (lookup_session_by_prefix_hash env.up hash s)
            else decided (mint env ""))
          ≡ refused e
        → e.status ≡ 400
    either true stitches h = refused_inherit prev _ e h
    either false true h = absurd (never_refused env s _ _ e h)
    either false false h = absurd (cc)

module _ (env : Env) (agent : Agent) (req : ResponsesRequest) (w : World) where
  publish_chat-Handled :
      (d : SessionDecision) (it : InputItem) (its : List InputItem) (history : List ChatMsg)
      → parse_input env.json req.input ≡ items (it ∷ its)
      → decide_session env w.store req.previous_response_id (should_store req.store) (it ∷ its)
        ≡ decided d
      → Continues env w.store req.previous_response_id history
      → Handled env agent (some req) w (some (publish_chat env agent req d (it ∷ its) history w))
  unfolding publish_chat
  publish_chat-Handled d it its history p q r =
      either env.message_made env.published
        (resolve_speaker_id env w.store req.speaker_id req.previous_response_id true) refl
    where
      either :
          (made published : Bool) (speaker : String)
          → resolve_speaker_id env w.store req.speaker_id req.previous_response_id true ≡ speaker
          → Handled env agent (some req) w (
              some (
                if not made
                then (rejected (internal_error "Failed to create message"), w)
                else if not published
                then (rejected (internal_error "Failed to publish request"), w)
                else run_turn env agent req.stream (turn_of req d (it ∷ its) speaker) (record w {
                  requests =
                      w.requests
                      ++ (chat_request env req d speaker
                            (history ++ input_items_to_messages (it ∷ its))
                          ∷ []);
                })))
      either false published speaker e = turned_away (inr refl)
      either true false speaker e = turned_away (inr refl)
      either true true speaker e =
          asked refl (λ l. absurd (cc)) p q r
            (run_turn-requests env agent req.stream _ _
              ∙ ap
                  (λ sp.
                    w.requests
                    ++ (chat_request env req d sp (history ++ input_items_to_messages (it ∷ its))
                        ∷ []))
                  (sym e)
              ∙ ap
                  (λ ms.
                    w.requests
                    ++ (chat_request env req d
                          (resolve_speaker_id env w.store req.speaker_id req.previous_response_id
                            true)
                          (history ++ ms)
                        ∷ []))
                  (input_items_to_messages-told (it ∷ its)))

  with_history-Handled :
      (d : SessionDecision) (it : InputItem) (its : List InputItem) (h : Result (List ChatMsg))
      → parse_input env.json req.input ≡ items (it ∷ its)
      → decide_session env w.store req.previous_response_id (should_store req.store) (it ∷ its)
        ≡ decided d
      → IsHistory env w.store req.previous_response_id h
      → Handled env agent (some req) w (with_history env agent req d (it ∷ its) w (some h))
  unfolding IsHistory
  with_history-Handled d it its (failed f) p q r = turned_away (inl refl)
  with_history-Handled d it its (ok history) p q r = publish_chat-Handled d it its history p q r

  with_decision-Handled :
      (it : InputItem) (its : List InputItem) (decision : Decided)
      → parse_input env.json req.input ≡ items (it ∷ its)
      → decide_session env w.store req.previous_response_id (should_store req.store) (it ∷ its)
        ≡ decision
      → Handled env agent (some req) w (with_decision env agent req (it ∷ its) w decision)
  with_decision-Handled it its (refused e) p q =
      turned_away (inl (decide_session_status env w.store _ _ _ e q))
  with_decision-Handled it its (decided d) p q =
      let (h, r, c) = history_of-some env w.store req.previous_response_id in
      subst (λ o. Handled env agent (some req) w (with_history env agent req d (it ∷ its) w o))
        (sym r) (with_history-Handled d it its h p q c)

  with_items-Handled :
      (parsed : Parsed)
      → parse_input env.json req.input ≡ parsed
      → Handled env agent (some req) w (with_items env agent req w parsed)
  with_items-Handled (unparsed msg) p = turned_away (inl refl)
  with_items-Handled (items []) p = turned_away (inl refl)
  with_items-Handled (items (it ∷ its)) p = with_decision-Handled it its _ p refl

-- Every request to create a response is answered. Either it is turned away with status 400 or 500,
-- and then the store, the requests to the agent and the announced turns stay as they are; or exactly
-- one request is sent to the agent, whatever becomes of its answer: in the session that was decided
-- on, for an input that parses to at least one item, with the messages of the history that it
-- continues and then one for each item of its input. The history is empty if the request names no
-- previous response, and else has, for each response of the chain of the one that it names, a
-- message for each input item, and for its output items the calls, their results and the texts of
-- the assistant that are not empty.
pub handle_create_response-Handled :
    (env : Env) (agent : Agent) (body : Option ResponsesRequest) (w : World)
    → Handled env agent body w (handle_create_response env agent body w)
unfolding handle_create_response
handle_create_response-Handled env agent none w = turned_away (inl refl)
handle_create_response-Handled env agent (some req) w = with_items-Handled env agent req w _ refl
