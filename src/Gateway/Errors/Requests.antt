-- ===== src/Gateway/Errors/Requests.antt =====
-- internal/gateway/responses.go: what follows the request to the agent sends no other.
use microagent.Prelude.{String, Bool, true, false, ◌≡◌, refl, List, [], ◌∷◌, if◌then◌else◌}
use microagent.Response.{Store}
use microagent.Response.Content.{OutputItem}
use microagent.Gateway.{Env, World, ChatRequest, Turn, complete_turn, publish_turn_completed}
use microagent.Gateway.Reply.{Reply, reply, timed_out, undecodable, handle_responses_non_streaming}
use microagent.Gateway.Stream.{
  StreamEvent, client_gone, passed_over, tool_called, tool_returned, token, StreamState, no_text,
  stream_loop, handle_responses_streaming, add_token,
}
use microagent.Gateway.Create.{Agent, run_turn}

complete_turn-requests :
    (env : Env) (t : Turn) (outs : List OutputItem) (w : World)
    → (complete_turn env t outs w).requests ≡ w.requests
unfolding complete_turn publish_turn_completed
complete_turn-requests env t outs w = either env.announced _ _
  where
    either :
        (b : Bool) (s : Store) (sids : List String)
        → (if b
            then record w { store = s; turns_completed = sids }
            else record w { store = s }).requests
          ≡ w.requests
    either true s sids = refl
    either false s sids = refl

stream_loop-requests :
    (env : Env) (t : Turn) (st : StreamState) (es : List StreamEvent) (w : World)
    → (stream_loop env t st es w).world.requests ≡ w.requests
unfolding stream_loop
stream_loop-requests env t st [] w = refl
stream_loop-requests env t st (client_gone ∷ es) w = refl
stream_loop-requests env t st (passed_over ∷ es) w = stream_loop-requests env t st es w
stream_loop-requests env t st (tool_called c ∷ es) w = stream_loop-requests env t _ es w
stream_loop-requests env t st (tool_returned id out ∷ es) w = stream_loop-requests env t _ es w
stream_loop-requests env t st (token text true ∷ es) w = complete_turn-requests env t _ w
stream_loop-requests env t st (token text false ∷ es) w =
    stream_loop-requests env t (add_token text st) es w

either_keeps :
    {A : Type 0} (requests : List ChatRequest) (b : Bool) (x y : A × World)
    → x.1.requests ≡ requests
    → y.1.requests ≡ requests
    → (if b then x else y).1.requests ≡ requests
either_keeps requests true x y h k = h
either_keeps requests false x y h k = k

pub run_turn-requests :
    (env : Env) (agent : Agent) (streams : Bool) (t : Turn) (w : World)
    → (run_turn env agent streams t w).1.requests ≡ w.requests
unfolding run_turn handle_responses_streaming handle_responses_non_streaming
run_turn-requests env agent true t w =
    either_keeps w.requests env.flusher _ _ (stream_loop-requests env t no_text agent.events w) refl
run_turn-requests env agent false t w = replied agent.reply
  where
    replied : (r : Reply) → (handle_responses_non_streaming env t r w).1.requests ≡ w.requests
    replied timed_out = refl
    replied undecodable = refl
    replied (reply p) = complete_turn-requests env t _ w
