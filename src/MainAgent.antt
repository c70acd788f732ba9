-- ===== src/MainAgent.antt =====
-- cmd/main-agent/main.go: a turn of the main agent, and internal/sessionskill. `runs` gives, for
-- each iteration, what asking for a slot and running the model come to; `iteration_of` reads it off
-- the runtime. Publications are listed when they are attempted, since their failures are ignored.
-- The decoding and encoding of JSON are fields of `Deps`.
pub mod Loop
pub mod Paired
pub mod Gated
pub mod Streamed
mod State
mod Skill
unfoldable pub use State.*
unfoldable pub use Skill.*
use Prim.Native.String.{◌++◌ as str_append, slice, len}
use microagent.Prelude.{
  ℕ, zero, suc, ◌-◌, ◌==◌, String, Bool, true, false, not, ◌&&◌, ◌||◌, Option, none, some, List, [],
  ◌∷◌, ◌++◌, if◌then◌else◌,
}
use microagent.Prelude.Text.{str_eq}
use microagent.Broker.Llm.{ToolCall}
use microagent.Response.{is_seen, Map, lookup, insert, remove, text_or_empty}
use microagent.Response.Session.{ChatMsg, tool_message}
use microagent.Gateway.Reply.{ToolResult, ChatResponse}
use microagent.Agent.Execute.{
  Callback, on_token, on_tool_call, Ending, completed, preempted, running, Run, Progress, Executed,
  ran, no_slot_error, failed,
}
use microagent.Tools.{Registry, Outcome, ok, gated, visible_set, invoke_tool}

-- `Execute`'s three results as an iteration, and a run that goes on.
unfoldable pub iteration_of : Executed → Iteration
iteration_of no_slot_error = executed "" [] [] error_end
iteration_of Executed.failed = executed "" [] [] error_end
iteration_of (ran run) = elim run.ended [
  | completed ↦ executed run.progress.result run.progress.tool_calls run.progress.callbacks ok_end
  | preempted ↦
      executed run.progress.result run.progress.tool_calls run.progress.callbacks preempted_end
  | running ↦ unfinished run.progress.callbacks
]

abbrev pub keep_result : ToolCall → String → Turn → Turn
keep_result call output t = record t {
  messages = t.messages ++ (tool_message output call.id ∷ []);
  all_tool_calls = t.all_tool_calls ++ (call ∷ []);
  all_tool_results = t.all_tool_results ++ (record { call_id = call.id; output = output } ∷ []);
  published = t.published ++ (result_sent call.id output ∷ []);
}

-- One call of an iteration; `names` are the tools that are visible in it.
unfoldable pub run_call : Deps → String → List String → ToolCall → Turn → Turn
run_call d sid names call t =
    let (output, outcome) = invoke_or_gate d call names sid in
    activate d sid call outcome (keep_result call output t)

unfoldable pub run_calls : Deps → String → List String → List ToolCall → Turn → Turn
run_calls d sid names [] t = t
run_calls d sid names (c ∷ cs) t = run_calls d sid names cs (run_call d sid names c t)

abbrev pub sent_by : Callback → Published
sent_by (on_token t) = token_sent t
sent_by (on_tool_call c) = call_sent c

unfoldable pub callbacks_sent : List Callback → List Published
callbacks_sent [] = []
callbacks_sent (c ∷ cs) = sent_by c ∷ callbacks_sent cs

abbrev pub assistant_message : String → List ToolCall → ChatMsg
assistant_message content calls = record {
  role = "assistant";
  content = content;
  tool_calls = calls;
  tool_call_id = "";
}

-- The turn after a run of the model, and whether the loop goes on.
unfoldable pub after_run :
    Deps → String → String → List ToolCall → List Callback → RunEnd → Turn → Bool × Turn
after_run d sid content calls callbacks preempted_end t = (
  false,
  record t { final_content = content; published = t.published ++ callbacks_sent callbacks },
)
after_run d sid content calls callbacks error_end t = (
  false,
  record t {
    final_content = content;
    published = t.published ++ callbacks_sent callbacks;
    failed = true;
  },
)
after_run d sid content [] callbacks ok_end t = (
  false,
  record t { final_content = content; published = t.published ++ callbacks_sent callbacks },
)
after_run d sid content (c ∷ cs) callbacks ok_end t = (
  true,
  run_calls d sid (visible d t.active_skill) (c ∷ cs) (record t {
    final_content = content;
    published = t.published ++ callbacks_sent callbacks;
    messages = t.messages ++ (assistant_message content (c ∷ cs) ∷ []);
  }),
)

abbrev pub next_iteration : ℕ → (Turn → Option ℕ × Turn) → Bool × Turn → Option ℕ × Turn
next_iteration iter next (true, t) = next t
next_iteration iter next (false, t) = (some iter, t)

-- The loop from iteration `iter` on, with as many iterations left; the number of the iteration at
-- which it is left, `none` when a run of the model never returns, and the turn.
unfoldable pub turn_loop : Deps → (ℕ → Iteration) → String → ℕ → ℕ → Turn → Option ℕ × Turn
turn_loop d runs sid zero iter t = (some iter, t)
turn_loop d runs sid (suc left) iter t = elim (runs iter) [
  | slot_failed ↦ (some iter, record t { failed = true })
  | unfinished callbacks ↦ (none, record t { published = t.published ++ callbacks_sent callbacks })
  | executed content calls callbacks ending ↦
      next_iteration iter (turn_loop d runs sid left (suc iter))
        (after_run d sid content calls callbacks ending t)
]

abbrev pub ends_in_newline : String → Bool
ends_in_newline s = str_eq (slice s (len s - 1) (len s)) "\n"

-- The note of a loop that has used up its iterations.
unfoldable pub noted : ℕ → ℕ → String → String
noted max_iter iter content =
    if iter == max_iter
    then str_append
        (if not (str_eq content "") && not (ends_in_newline content)
          then str_append content "\n"
          else content)
        "(max iterations reached)"
    else content

abbrev pub reply_of : String → Turn → ChatResponse
reply_of content t = record {
  content = content;
  tool_calls = t.all_tool_calls;
  tool_results = t.all_tool_results;
}

-- The end of the turn: the last token, and the reply unless there is no stream for it or the loop
-- failed. A loop that is not left has no end.
unfoldable pub finish_turn : Deps → String → Option ℕ × Turn → Turn
finish_turn d reply_stream (none, t) = t
finish_turn d reply_stream (some iter, t) =
    let content = noted d.max_iter iter t.final_content in
    let replies = not (str_eq reply_stream "") && not t.failed in
    record t {
      final_content = content;
      published =
          t.published
          ++ (done_sent ∷ (if replies then reply_sent (reply_of content t) ∷ [] else []));
    }

unfoldable pub handle_request :
    Deps → (ℕ → Iteration) → String → String → List ChatMsg → Map String → Turn
handle_request d runs sid reply_stream messages active_skills =
    let (name, skill, skills) = resolve_active_skill d sid active_skills in
    finish_turn d reply_stream (
      turn_loop d runs sid d.max_iter 0 (record {
        messages = inject_skill_manifest messages d.skills;
        final_content = "";
        all_tool_calls = [];
        all_tool_results = [];
        active_name = name;
        active_skill = skill;
        failed = false;
        published = [];
        active_skills = skills;
      }))
