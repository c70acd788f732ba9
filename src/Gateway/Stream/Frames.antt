-- ===== src/Gateway/Stream/Frames.antt =====
-- `handleResponsesStreaming` of internal/gateway/responses.go: the frames of a stream.
use Prim.Native.String.{◌++◌ as str_append}
use text.Mathlib.TextLemmas.{
  append_assoc as str_append_assoc, append-nil as str_append-nil, nil-append as str_nil-append,
}
use microagent.Prelude.{
  String, Bool, true, false, ◌≡◌, refl, ap, ◌∙◌, List, [], ◌∷◌, ◌++◌, append-nil, append_assoc, map,
  if◌then◌else◌,
}
use microagent.Response.Content.{OutputItem}
use microagent.Gateway.{
  internal_error, Env, World, Turn, complete_turn, shown, client_facing_output,
  text_to_output_items,
}
use microagent.Gateway.Reply.{function_call, function_call_output}
use microagent.Gateway.Stream.{
  StreamEvent, client_gone, passed_over, tool_called, tool_returned, token, Frame, created,
  in_progress, completed, text_delta, StreamState, StreamEnd, finished, disconnected, waiting,
  StreamRun, no_text, item_id, opening, closing, written, stream_loop, add_item, add_token,
  not_supported, handle_responses_streaming, streamed, stream_answer, StreamAnswer,
}

-- A stream up to its end: its tokens, the trace of its tools, and how it ended.
pub record Heard : Type 0 where
  pub tokens : List String
  pub trace : List OutputItem
  pub ending : StreamEnd

unfoldable pub heard : List StreamEvent → Heard
heard [] = record { tokens = []; trace = []; ending = waiting }
heard (client_gone ∷ es) = record { tokens = []; trace = []; ending = disconnected }
heard (passed_over ∷ es) = heard es
heard (tool_called c ∷ es) = let h = heard es in record h { trace = function_call c ∷ h.trace }
heard (tool_returned id out ∷ es) =
    let h = heard es in record h { trace = function_call_output id out ∷ h.trace }
heard (token text true ∷ es) = record { tokens = []; trace = []; ending = finished }
heard (token text false ∷ es) = let h = heard es in record h { tokens = text ∷ h.tokens }

abbrev pub joined_tokens : List String → String
joined_tokens [] = ""
joined_tokens (t ∷ ts) = str_append t (joined_tokens ts)

-- The frames of the text, when `declared` says whether its part is declared already.
abbrev pub text_frames : String → Bool → List String → List Frame
text_frames item declared [] = []
text_frames item declared (t ∷ ts) = opening item declared ++ (map (text_delta item) (t ∷ ts))

abbrev pub any_text : Bool → List String → Bool
any_text declared [] = declared
any_text declared (t ∷ ts) = true

-- The frames after the text.
abbrev pub ending_frames : Env → Turn → String → Bool → List OutputItem → StreamEnd → List Frame
ending_frames env t text declared outs finished =
    closing (item_id env) text declared
    ++ (completed (shown env t (client_facing_output outs) "completed") ∷ [])
ending_frames env t text declared outs disconnected = []
ending_frames env t text declared outs waiting = []

abbrev pub final_world : Env → Turn → List OutputItem → StreamEnd → World → World
final_world env t outs finished w = complete_turn env t outs w
final_world env t outs disconnected w = w
final_world env t outs waiting w = w

abbrev run_of :
    Env → Turn → World → Bool → List String → String → List OutputItem → StreamEnd → StreamRun
run_of env t w declared tokens text trace ending =
    let outs = trace ++ text_to_output_items text in
    record {
      frames =
          text_frames (item_id env) declared tokens
          ++ ending_frames env t text (any_text declared tokens) outs ending;
      ended = ending;
      world = final_world env t outs ending w;
    }

-- What the loop comes to from a state.
abbrev Loops : Env → Turn → StreamState → List StreamEvent → World → Type 0
Loops env t st es w =
    stream_loop env t st es w
    ≡ run_of env t w st.text_part_declared (heard es).tokens
        (str_append st.full_content (joined_tokens (heard es).tokens))
        (st.agentic_items ++ (heard es).trace) (heard es).ending

nothing_more :
    (env : Env) (t : Turn) (st : StreamState) (w : World) (ending : StreamEnd)
    → run_of env t w st.text_part_declared [] st.full_content st.agentic_items ending
      ≡ run_of env t w st.text_part_declared []
          (str_append st.full_content "")
          (st.agentic_items ++ [])
          ending
nothing_more env t st w ending =
    rw (str_append-nil st.full_content, append-nil st.agentic_items) refl

another_item :
    (env : Env) (t : Turn) (st : StreamState) (w : World) (it : OutputItem) (h : Heard)
    → let text = str_append st.full_content (joined_tokens h.tokens) in
      run_of env t w st.text_part_declared h.tokens text
        ((st.agentic_items ++ (it ∷ [])) ++ h.trace)
        h.ending
      ≡ run_of env t w st.text_part_declared h.tokens text
          (st.agentic_items ++ (it ∷ h.trace))
          h.ending
another_item env t st w it h = rw (append_assoc st.agentic_items (it ∷ []) h.trace) refl

more_frames :
    (item text : String) (declared : Bool) (ts : List String) (rest : Bool → List Frame)
    → (opening item declared ++ (text_delta item text ∷ []))
        ++ (text_frames item true ts ++ rest (any_text true ts))
      ≡ text_frames item declared (text ∷ ts) ++ rest true
more_frames item text true [] rest = refl
more_frames item text false [] rest = refl
more_frames item text true (t ∷ ts) rest = refl
more_frames item text false (t ∷ ts) rest = refl

another_token :
    (env : Env) (t : Turn) (w : World) (declared : Bool) (text : String) (h : Heard)
    → (full : String) (trace : List OutputItem)
    → written (opening (item_id env) declared ++ (text_delta (item_id env) text ∷ [])) (
        run_of env t w true h.tokens
          (str_append (str_append full text) (joined_tokens h.tokens))
          trace
          h.ending)
      ≡ run_of env t w declared
          (text ∷ h.tokens)
          (str_append full (str_append text (joined_tokens h.tokens)))
          trace
          h.ending
another_token env t w declared text h full trace =
    let all = str_append full (str_append text (joined_tokens h.tokens)) in
    let outs = trace ++ text_to_output_items all in
    rw (str_append_assoc full text (joined_tokens h.tokens)) (
      ap
        (λ frames. record {
          frames = frames;
          ended = h.ending;
          world = final_world env t outs h.ending w;
        })
        (more_frames (item_id env) text declared h.tokens
          (λ d. ending_frames env t all d outs h.ending)))

loop_lem :
    (env : Env) (t : Turn) (st : StreamState) (es : List StreamEvent) (w : World)
    → Loops env t st es w
unfolding stream_loop heard
loop_lem env t st [] w = nothing_more env t st w waiting
loop_lem env t st (client_gone ∷ es) w = nothing_more env t st w disconnected
loop_lem env t st (passed_over ∷ es) w = loop_lem env t st es w
loop_lem env t st (tool_called c ∷ es) w =
    loop_lem env t (add_item (function_call c) st) es w
    ∙ another_item env t st w (function_call c) (heard es)
loop_lem env t st (tool_returned id out ∷ es) w =
    loop_lem env t (add_item (function_call_output id out) st) es w
    ∙ another_item env t st w (function_call_output id out) (heard es)
loop_lem env t st (token text true ∷ es) w = nothing_more env t st w finished
loop_lem env t st (token text false ∷ es) w =
    ap
      (written
        (opening (item_id env) st.text_part_declared ++ (text_delta (item_id env) text ∷ [])))
      (loop_lem env t (add_token text st) es w)
    ∙ another_token env t w st.text_part_declared text (heard es) st.full_content
        (st.agentic_items ++ (heard es).trace)

-- An answered stream starts with `created` and `in_progress`. If a token comes that is not the last
-- one, then follow the frames that declare the item and its part, and a delta for each token, in
-- order. A stream that gets its last token ends with the frames that finish the part and the item
-- (if there was any token) with the joined tokens as text, and with `completed`; the turn is then
-- completed with the trace of the tools, in order of arrival, and the joined tokens. A stream whose
-- client leaves, or that still waits, writes nothing more and completes nothing.
pub handle_responses_streaming_lem :
    (env : Env) (t : Turn) (es : List StreamEvent) (w : World)
    → env.flusher ≡ true
    → let h = heard es in
      let start = shown env t [] "in_progress" in
      let text = joined_tokens h.tokens in
      let outs = h.trace ++ text_to_output_items text in
      handle_responses_streaming env t es w ≡ (
        streamed
            (created start ∷ in_progress start ∷ text_frames (item_id env) false h.tokens
              ++ ending_frames env t text (any_text false h.tokens) outs h.ending)
            h.ending,
        final_world env t outs h.ending w,
      )
unfolding handle_responses_streaming
handle_responses_streaming_lem env t es w f =
    let start = shown env t [] "in_progress" in
    let h = heard es in
    let answer =
      λ (run : StreamRun). stream_answer (written (created start ∷ in_progress start ∷ []) run) in
    let refusal : StreamAnswer × World =
      (not_supported (internal_error "Streaming not supported"), w) in
    ap (λ flushes. if flushes then answer (stream_loop env t no_text es w) else refusal) f
    ∙ ap answer (loop_lem env t no_text es w)
    ∙ ap (λ text. answer (run_of env t w false h.tokens text h.trace h.ending))
        (str_nil-append (joined_tokens h.tokens))
