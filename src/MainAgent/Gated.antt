-- ===== src/MainAgent/Gated.antt =====
-- cmd/main-agent/main.go: the calls that a turn turns away.
use microagent.Prelude.{
  String, Bool, true, false, not, ◌≡◌, ◌≢◌, ◌↔◌, refl, subst, Option, none, some, if◌then◌else◌,
}
use microagent.Broker.Llm.{ToolCall}
use microagent.Response.{is_seen}
use microagent.Tools.{
  Tool, Outcome, gated, Invoked, returned, fails, panics, answer_of, invoke_found, find_tool,
  invoke_tool, schemas_for,
}
use microagent.Tools.Visible.{names, visible_set-schemas_for}
use microagent.MainAgent.{
  Deps, Manifest, allowed_of, visible, invoke_or_gate, gated_envelope, inject_session_id,
  is_session_scoped,
}

answer_not_gated : (json_error : String → String) (i : Invoked) → (answer_of json_error i).1 ≢ gated
answer_not_gated json_error (returned out) e = absurd (cc)
answer_not_gated json_error (fails x) e = absurd (cc)
answer_not_gated json_error panics e = absurd (cc)

found_not_gated :
    (json_error : String → String) (name args : String) (o : Option Tool)
    → (invoke_found json_error name args o).1 ≢ gated
found_not_gated json_error name args none e = absurd (cc)
found_not_gated json_error name args (some t) e = answer_not_gated json_error (t.invoke args) e

gate_iff :
    (b : Bool) (envelope answer : String × Outcome)
    → envelope.1 ≡ gated
    → answer.1 ≢ gated
    → ((if not b then envelope else answer).1 ≡ gated) ↔ (b ≡ false)
gate_iff true envelope answer g n = (λ e. absurd (n e), λ e. absurd (cc))
gate_iff false envelope answer g n = (λ e. refl, λ e. g)

-- A call is turned away without running a tool exactly if its tool is not among those whose schemas
-- the model is shown in the iteration.
pub invoke_or_gate_iff :
    (d : Deps) (active : Option Manifest) (call : ToolCall) (sid : String)
    → ((invoke_or_gate d call (visible d active) sid).1 ≡ gated) ↔ (
        is_seen call.name (names (schemas_for d.base_tools (allowed_of active) d.registry)) ≡ false)
unfolding invoke_or_gate invoke_tool
invoke_or_gate_iff d active call sid =
    let args =
      if is_session_scoped call.name
      then inject_session_id d call.arguments sid
      else call.arguments in
    subst (λ b. ((invoke_or_gate d call (visible d active) sid).1 ≡ gated) ↔ (b ≡ false))
      (visible_set-schemas_for call.name d.base_tools (allowed_of active) d.registry)
      (gate_iff (is_seen call.name (visible d active)) (gated_envelope call.name, gated)
        (invoke_found d.json_error call.name args (find_tool call.name d.registry)) refl
        (found_not_gated d.json_error call.name args (find_tool call.name d.registry)))
