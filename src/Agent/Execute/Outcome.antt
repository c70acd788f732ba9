-- ===== src/Agent/Execute/Outcome.antt =====
-- `ExecuteWithCorrelation` of internal/agent/runtime.go: what a run returns, and when.
use Prim.Native.String.{◌++◌ as str_append}
use text.Mathlib.TextLemmas.{append_assoc as str_append_assoc, append-nil as str_append-nil}
use microagent.Prelude.{
  ℕ, String, Bool, true, false, ◌≡◌, refl, ◌∙◌, none, List, [], ◌∷◌, ◌++◌, append-nil, append_assoc,
  if◌then◌else◌, All,
}
use microagent.Broker.Llm.{ToolCall}
use microagent.Agent.Execute.{
  Read, no_message, passed_over, tool_call, token, Round, completed, running, Callback, on_token,
  on_tool_call, Progress, Run, add_token, add_call, arm, execute_loop, join,
}

-- What the rounds bring up to the last token.
pub record Brought : Type 0 where
  pub tokens : List String
  pub calls : List ToolCall
  pub callbacks : List Callback
  pub finished : Bool

unfoldable pub brought : List Round → Brought
brought [] = record { tokens = []; calls = []; callbacks = []; finished = false }
brought (r ∷ rs) =
    let rest = brought rs in
    elim r.read [
      | no_message ↦ rest
      | passed_over ↦ rest
      | tool_call c ↦ record rest {
        calls = c ∷ rest.calls;
        callbacks = on_tool_call c ∷ rest.callbacks;
      }
      | token t last ↦ elim last [
        | true ↦ record { tokens = []; calls = []; callbacks = []; finished = true }
        | false ↦ record rest { tokens = t ∷ rest.tokens; callbacks = on_token t ∷ rest.callbacks }
      ]
    ]

abbrev pub whole_run : Progress → Brought → Run
whole_run p b = record {
  ended = if b.finished then completed else running;
  progress = record {
    result = str_append p.result (join b.tokens);
    tool_calls = p.tool_calls ++ b.calls;
    log = p.log ++ b.tokens;
    callbacks = p.callbacks ++ b.callbacks;
  };
}

read_lem :
    (timeout : ℕ) (flag : Bool) (armed checked : ℕ) (read : Read) (p : Progress) (rs : List Round)
    → flag ≡ false
    → ((q : Progress) → execute_loop timeout none q rs ≡ whole_run q (brought rs))
    → let r : Round = record { flag = flag; armed_at = armed; checked_at = checked; read = read } in
      execute_loop timeout none p (r ∷ rs) ≡ whole_run p (brought (r ∷ rs))
unfolding execute_loop arm brought join
read_lem timeout true a c read p rs f ih = absurd (cc)
read_lem timeout false a c no_message p rs f ih = ih p
read_lem timeout false a c passed_over p rs f ih = ih p
read_lem timeout false a c (tool_call call) p rs f ih =
    ih (add_call call p)
    ∙ (rw
        (
          append_assoc p.tool_calls (call ∷ []) (brought rs).calls,
          append_assoc p.callbacks (on_tool_call call ∷ []) (brought rs).callbacks,
        )
        refl)
read_lem timeout false a c (token t true) p rs f ih =
    rw (str_append-nil p.result, append-nil p.tool_calls, append-nil p.log, append-nil p.callbacks)
      refl
read_lem timeout false a c (token t false) p rs f ih =
    ih (add_token t p)
    ∙ (rw
        (
          append_assoc p.log (t ∷ []) (brought rs).tokens,
          append_assoc p.callbacks (on_token t ∷ []) (brought rs).callbacks,
          str_append_assoc p.result t (join (brought rs).tokens),
        )
        refl)

-- A run that is not preempted and gets its last token returns all tokens before it, joined, and all
-- tool calls before it, in order, without an error; the progress log holds the tokens, and the
-- callbacks have been called for all of them in the order in which they came. Without a last token
-- it has gathered the same and goes on.
pub execute_loop_lem :
    (timeout : ℕ) (p : Progress) (rounds : List Round)
    → All (λ (r : Round). r.flag ≡ false) rounds
    → execute_loop timeout none p rounds ≡ whole_run p (brought rounds)
unfolding execute_loop brought join
execute_loop_lem timeout p [] h =
    rw (str_append-nil p.result, append-nil p.tool_calls, append-nil p.log, append-nil p.callbacks)
      refl
execute_loop_lem timeout p (r ∷ rs) h =
    read_lem timeout r.flag r.armed_at r.checked_at r.read p rs h.0
      (λ q. execute_loop_lem timeout q rs h.1)
