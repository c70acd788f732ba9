-- ===== src/Agent/Execute/Resume.antt =====
-- `BuildResumptionContext` of internal/agent/runtime.go after a run.
use Prim.Native.String.{◌++◌ as str_append}
use text.Mathlib.TextLemmas.{
  append_assoc as str_append_assoc, append-nil as str_append-nil, nil-append as str_nil-append,
}
use microagent.Prelude.{
  ℕ, String, Bool, true, false, ◌≡◌, refl, sym, ap, ◌∙◌, Option, none, List, [], ◌∷◌, ◌++◌,
  if◌then◌else◌,
}
use microagent.Prelude.Int.{eqb_ℤ}
use microagent.Prelude.Text.{str_eq}
use microagent.Response.Session.{ChatMsg}
use microagent.Agent.{Runtime, no_slot}
use microagent.Agent.Execute.{
  Read, no_message, passed_over, tool_call, token, Round, Progress, Run, nothing_yet, add_token,
  add_call, arm, is_past, on_round, execute_loop, Executed, ran, no_slot_error, execute, join,
  build_resumption_context,
}

-- The log and the result.
abbrev IsLogged : Progress → Type 0
IsLogged p = p.result ≡ join p.log

join-append : (ts : List String) (t : String) → join (ts ++ (t ∷ [])) ≡ str_append (join ts) t
unfolding join
join-append [] t = str_append-nil t ∙ sym (str_nil-append t)
join-append (x ∷ ts) t = ap (str_append x) (join-append ts t) ∙ sym (str_append_assoc x (join ts) t)

IsLogged-round :
    (past : Bool) (o : Option ℕ) (p : Progress) (read : Read) (next : Progress → Run)
    → IsLogged p
    → ((q : Progress) → IsLogged q → IsLogged (next q).progress)
    → IsLogged (on_round past o p read next).progress
IsLogged-round true o p read next l h = l
IsLogged-round false o p no_message next l h = h p l
IsLogged-round false o p passed_over next l h = h p l
IsLogged-round false o p (tool_call c) next l h = h (add_call c p) l
IsLogged-round false o p (token t true) next l h = l
IsLogged-round false o p (token t false) next l h =
    h (add_token t p) (ap (λ x. str_append x t) l ∙ sym (join-append p.log t))

execute_loop-IsLogged :
    (timeout : ℕ) (o : Option ℕ) (p : Progress) (rounds : List Round)
    → IsLogged p
    → IsLogged (execute_loop timeout o p rounds).progress
unfolding execute_loop
execute_loop-IsLogged timeout o p [] l = l
execute_loop-IsLogged timeout o p (r ∷ rs) l =
    IsLogged-round (is_past r (arm timeout r o)) (arm timeout r o) p r.read _ l
      (λ q k. execute_loop-IsLogged timeout (arm timeout r o) q rs k)

-- The messages with the partial answer that a run returned, unless it is empty.
abbrev pub resumed : List ChatMsg → String → List ChatMsg
resumed original text =
    if str_eq text ""
    then original
    else original
      ++ (record { role = "assistant"; content = text; tool_calls = []; tool_call_id = "" } ∷ [])

-- The context to resume a run with, however the run ended, is that of the request and then the text
-- that the run returned, in a message of the assistant, if it is not empty.
pub build_resumption_context-execute :
    (timeout : ℕ) (rounds : List Round) (r : Runtime) (original : List ChatMsg)
    → eqb_ℤ r.slot_id no_slot ≡ false
    → let run = execute_loop timeout none nothing_yet rounds in
      ((execute timeout true rounds r).0 ≡ ran run)
      × (build_resumption_context (execute timeout true rounds r).1 original
          ≡ resumed original run.progress.result)
unfolding execute build_resumption_context join
build_resumption_context-execute timeout rounds r original s =
    let run = execute_loop timeout none nothing_yet rounds in
    let cleared : Runtime = record r { progress_log = [] } in
    let refused : Executed × Runtime = (no_slot_error, cleared) in
    let answered : Executed × Runtime = (ran run, record r { progress_log = run.progress.log }) in
    let e : execute timeout true rounds r ≡ answered =
      ap (λ b. if b then refused else answered) s in
    let logged : join run.progress.log ≡ run.progress.result =
      sym (execute_loop-IsLogged timeout none nothing_yet rounds refl) in
    (
      ap (λ a. a.0) e,
      ap (λ a. resumed original (join a.1.progress_log)) e ∙ ap (resumed original) logged,
    )
