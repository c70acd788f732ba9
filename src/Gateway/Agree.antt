-- ===== src/Gateway/Agree.antt =====
-- internal/gateway/responses.go: a streamed turn and one that is not streamed keep the same.
use microagent.Prelude.{
  String, true, false, ◌≡◌, ◌≢◌, refl, sym, ap, ◌∙◌, some, List, [], ◌∷◌, ◌++◌, map, All, arith,
}
use microagent.Prelude.Text.{str_eq, eq_iff, eq_refl}
use microagent.Response.{Map, lookup, insert, lookup-insert}
use microagent.Response.Content.{OutputItem}
use microagent.Broker.Llm.{ToolCall}
use microagent.Gateway.{Env, World, Turn, complete_turn, text_to_output_items}
use microagent.Gateway.Reply.{
  ToolResult, ChatResponse, reply, function_call, function_call_output, output_items, interleave,
  result_by_call_id, call_items, handle_responses_non_streaming,
}
use microagent.Gateway.Stream.{StreamEvent, finished, handle_responses_streaming}
use microagent.Gateway.Stream.Frames.{
  heard, joined_tokens, final_world, handle_responses_streaming_lem,
}

-- A call with its result.
abbrev pub Call : Type 0
Call = ToolCall × String

abbrev pub trace_of : List Call → List OutputItem
trace_of [] = []
trace_of ((c, out) ∷ calls) = function_call c ∷ function_call_output c.id out ∷ trace_of calls

abbrev pub results_of : List Call → List ToolResult
results_of [] = []
results_of ((c, out) ∷ calls) = record { call_id = c.id; output = out } ∷ results_of calls

-- The reply that reports calls with their results and a text.
abbrev pub payload : List Call → String → ChatResponse
payload calls content = record {
  content = content;
  tool_calls = map (λ call. call.0) calls;
  tool_results = results_of calls;
}

-- Calls with different ids.
abbrev pub Distinct : List Call → Type 0
Distinct [] = Unit
Distinct (call ∷ calls) = All (λ (other : Call). other.0.id ≢ call.0.id) calls × Distinct calls

lookup-result_by_call_id :
    (id : String) (calls : List Call) (m : Map String)
    → All (λ (other : Call). other.0.id ≢ id) calls
    → lookup id (result_by_call_id (results_of calls) m) ≡ lookup id m
unfolding result_by_call_id
lookup-result_by_call_id id [] m h = refl
lookup-result_by_call_id id ((c, out) ∷ calls) m h =
    let n : str_eq c.id id ≡ false = ground (arith, h.0, eq_iff c.id id) in
    lookup-result_by_call_id id calls (insert c.id out m) h.1
    ∙ (rw (lookup-insert c.id id out m, n) refl)

results_found :
    (calls : List Call) (m : Map String)
    → Distinct calls
    → All
        (λ (call : Call). lookup call.0.id (result_by_call_id (results_of calls) m) ≡ some call.1)
        calls
unfolding result_by_call_id
results_found [] m d = tt
results_found ((c, out) ∷ calls) m d = (
  lookup-result_by_call_id c.id calls (insert c.id out m) d.0
      ∙ (rw (lookup-insert c.id c.id out m, eq_refl c.id) refl),
  results_found calls (insert c.id out m) d.1,
)

interleave_found :
    (calls : List Call) (m : Map String)
    → All (λ (call : Call). lookup call.0.id m ≡ some call.1) calls
    → interleave (map (λ call. call.0) calls) m ≡ trace_of calls
unfolding interleave
interleave_found [] m h = refl
interleave_found ((c, out) ∷ calls) m h =
    ap (λ o. call_items c o ++ interleave (map (λ call. call.0) calls) m) h.0
    ∙ ap (λ its. function_call c ∷ function_call_output c.id out ∷ its)
        (interleave_found calls m h.1)

pub output_items-payload :
    (calls : List Call) (content : String)
    → Distinct calls
    → output_items (payload calls content) ≡ trace_of calls ++ text_to_output_items content
unfolding output_items
output_items-payload calls content d =
    ap (◌++ text_to_output_items content)
      (interleave_found calls (result_by_call_id (results_of calls) []) (results_found calls [] d))

-- A stream that gets its last token, in which every call's result follows the call and no two calls
-- have the same id, changes the response store and announces the turn exactly as the reply does
-- that reports the same calls and results and the joined tokens.
pub streaming_agrees :
    (env : Env) (t : Turn) (es : List StreamEvent) (calls : List Call) (w : World)
    → env.flusher ≡ true
    → Distinct calls
    → (heard es).trace ≡ trace_of calls
    → (heard es).ending ≡ finished
    → (handle_responses_streaming env t es w).1
      ≡ (handle_responses_non_streaming env t
          (reply (payload calls (joined_tokens (heard es).tokens)))
          w).1
unfolding handle_responses_non_streaming
streaming_agrees env t es calls w f d tr en =
    let text = text_to_output_items (joined_tokens (heard es).tokens) in
    ap (λ a. a.1) (handle_responses_streaming_lem env t es w f)
    ∙ ap (λ its. final_world env t (its ++ text) (heard es).ending w) tr
    ∙ ap (λ e. final_world env t (trace_of calls ++ text) e w) en
    ∙ ap (λ outs. complete_turn env t outs w)
        (sym (output_items-payload calls (joined_tokens (heard es).tokens) d))
