-- ===== src/MainAgent/Paired.antt =====
-- cmd/main-agent/main.go: the calls and the results of a turn, and what the gateway stores of its
-- reply.
use microagent.Prelude.{
  ℕ, String, Bool, true, false, ◌≡◌, refl, sym, ap, ◌∙◌, subst, Option, none, some, List, [], ◌∷◌,
  ◌++◌, map, if◌then◌else◌,
}
use microagent.Prelude.Text.{str_eq}
use microagent.Broker.Llm.{ToolCall}
use microagent.Response.{Map}
use microagent.Response.Session.{ChatMsg}
use microagent.Gateway.{text_to_output_items}
use microagent.Gateway.Reply.{ToolResult, output_items}
use microagent.Gateway.Agree.{Call, trace_of, results_of, Distinct, output_items-payload}
use microagent.MainAgent.{
  Deps, Iteration, Turn, Manifest, switch_skill, set_active, finish_turn, handle_request, reply_of,
  turn_loop,
}
use microagent.MainAgent.Loop.{IsKept, turn_loop-keeps}

abbrev pub calls_of : List Call → List ToolCall
calls_of calls = map (λ (call : Call). call.0) calls

-- The calls, each with the result that stands at its place.
abbrev pub pairs_of : List ToolCall → List ToolResult → List Call
pairs_of [] rs = []
pairs_of (c ∷ cs) [] = []
pairs_of (c ∷ cs) (r ∷ rs) = (c, r.output) ∷ pairs_of cs rs

-- Calls and results that come in pairs.
abbrev pub ArePaired : List ToolCall → List ToolResult → Type 0
ArePaired cs rs = (pairs : List Call) × (cs ≡ calls_of pairs) × (rs ≡ results_of pairs)

calls_of-append : (ps qs : List Call) → calls_of (ps ++ qs) ≡ calls_of ps ++ calls_of qs
calls_of-append [] qs = refl
calls_of-append (p ∷ ps) qs = ap (p.0 ∷◌) (calls_of-append ps qs)

results_of-append : (ps qs : List Call) → results_of (ps ++ qs) ≡ results_of ps ++ results_of qs
results_of-append [] qs = refl
results_of-append ((c, out) ∷ ps) qs =
    ap (◌∷◌ (record { call_id = c.id; output = out })) (results_of-append ps qs)

ArePaired-add :
    (cs : List ToolCall) (rs : List ToolResult) (call : ToolCall) (output : String)
    → ArePaired cs rs
    → ArePaired (cs ++ (call ∷ [])) (rs ++ (record { call_id = call.id; output = output } ∷ []))
ArePaired-add cs rs call output (pairs, p, q) = (
  pairs ++ ((call, output) ∷ []),
  ap (◌++ (call ∷ [])) p ∙ sym (calls_of-append pairs ((call, output) ∷ [])),
  ap (◌++ (record { call_id = call.id; output = output } ∷ [])) q
      ∙ sym (results_of-append pairs ((call, output) ∷ [])),
)

abbrev TurnPaired : Turn → Type 0
TurnPaired t = ArePaired t.all_tool_calls t.all_tool_results

switch_skill-TurnPaired :
    (d : Deps) (t : Turn) (sid name : String) (skill : Option Manifest)
    → TurnPaired t
    → TurnPaired (switch_skill d sid name skill t)
switch_skill-TurnPaired d t sid name none h = h
switch_skill-TurnPaired d t sid name (some skill) h = either (str_eq name t.active_name)
  where
    either :
        (b : Bool)
        → TurnPaired (
            if b then t else record t {
              active_name = name;
              active_skill = some skill;
              active_skills = set_active d sid name t.active_skills;
            })
    either true = h
    either false = h

paired_kept : (d : Deps) → IsKept d TurnPaired
paired_kept d = record {
  keeps_failure = λ t h. h;
  keeps_skill = λ t sid name skill h. switch_skill-TurnPaired d t sid name skill h;
  keeps_result = λ t call output h. ArePaired-add t.all_tool_calls t.all_tool_results call output h;
  keeps_run = λ t content callbacks h. h;
  keeps_message = λ t content calls h. h;
}

pairs_of-paired : (pairs : List Call) → pairs_of (calls_of pairs) (results_of pairs) ≡ pairs
pairs_of-paired [] = refl
pairs_of-paired ((c, out) ∷ pairs) = ap (◌∷◌ (c, out)) (pairs_of-paired pairs)

handle_request-ArePaired :
    (d : Deps) (runs : ℕ → Iteration) (sid reply_stream : String) (messages : List ChatMsg)
    (active : Map String)
    → let t = handle_request d runs sid reply_stream messages active in
      ArePaired t.all_tool_calls t.all_tool_results
unfolding handle_request finish_turn
handle_request-ArePaired d runs sid reply_stream messages active =
    by_end (turn_loop d runs sid d.max_iter 0 _)
      (turn_loop-keeps d TurnPaired (paired_kept d) runs sid d.max_iter 0 _ ([], refl, refl))
  where
    by_end :
        (left : Option ℕ × Turn) → TurnPaired left.1 → TurnPaired (finish_turn d reply_stream left)
    by_end (none, t) h = h
    by_end (some iter, t) h = h

-- Every call that a turn reports comes with its result, also when the turn is cut off by a
-- preemption or an error, or uses up its iterations: when no two calls have the same id, the output
-- that the gateway stores of the reply is each call with its own result after it, in order, and
-- then the text. No call stands alone.
pub handle_request-output_items :
    (d : Deps) (runs : ℕ → Iteration) (sid reply_stream : String) (messages : List ChatMsg)
    (active : Map String)
    → let t = handle_request d runs sid reply_stream messages active in
      let pairs = pairs_of t.all_tool_calls t.all_tool_results in
      Distinct pairs
      → output_items (reply_of t.final_content t)
        ≡ trace_of pairs ++ text_to_output_items t.final_content
handle_request-output_items d runs sid reply_stream messages active distinct =
    let t = handle_request d runs sid reply_stream messages active in
    let (pairs, p, q) = handle_request-ArePaired d runs sid reply_stream messages active in
    let same : pairs_of t.all_tool_calls t.all_tool_results ≡ pairs =
      ap (λ cs. pairs_of cs t.all_tool_results) p
      ∙ ap (pairs_of (calls_of pairs)) q
      ∙ pairs_of-paired pairs in
    ap (λ cs. output_items (record (reply_of t.final_content t) { tool_calls = cs })) p
    ∙ ap
        (λ rs.
          output_items
            (record { content = t.final_content; tool_calls = calls_of pairs; tool_results = rs }))
        q
    ∙ output_items-payload pairs t.final_content (subst Distinct same distinct)
    ∙ ap (λ ps. trace_of ps ++ text_to_output_items t.final_content) (sym same)
