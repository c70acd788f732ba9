-- ===== src/Agent/Execute.antt =====
-- `ExecuteWithCorrelation` and the progress log of internal/agent/runtime.go. A round of the read
-- loop is given by what it finds: whether the preemption flag is up, the two readings of the clock,
-- and the message that is read, if any. Where the rounds end, the loop goes on.
pub mod Outcome
pub mod Deadline
pub mod Resume
use Prim.Native.String.{◌++◌ as str_append}
use microagent.Prelude.{
  ℕ, ◌+◌, ltb, String, Bool, true, false, not, Option, none, some, List, [], ◌∷◌, ◌++◌,
  if◌then◌else◌,
}
use microagent.Prelude.Int.{ℤ, eqb_ℤ}
use microagent.Prelude.Text.{str_eq}
use microagent.Broker.Llm.{ToolCall}
use microagent.Response.Session.{ChatMsg}
use microagent.Agent.{Runtime, no_slot}

pub data Read : Type 0 where
  -- `ReadGroup` fails, or gives nothing.
  no_message : Read
  -- A message that does not decode, or of another type.
  passed_over : Read
  tool_call : ToolCall → Read
  token : String → Bool → Read

pub record Round : Type 0 where
  pub flag : Bool
  pub armed_at : ℕ
  pub checked_at : ℕ
  pub read : Read

pub data Ending : Type 0 where
  completed preempted running : Ending

-- A call of `onToken` or `onToolCall`.
pub data Callback : Type 0 where
  on_token : String → Callback
  on_tool_call : ToolCall → Callback

-- What the builder and the list of calls hold, the progress log, and the callbacks so far.
pub record Progress : Type 0 where
  pub result : String
  pub tool_calls : List ToolCall
  pub log : List String
  pub callbacks : List Callback

pub record Run : Type 0 where
  pub ended : Ending
  pub progress : Progress

abbrev pub nothing_yet : Progress
nothing_yet = record { result = ""; tool_calls = []; log = []; callbacks = [] }

abbrev pub add_token : String → Progress → Progress
add_token t p = record p {
  result = str_append p.result t;
  log = p.log ++ (t ∷ []);
  callbacks = p.callbacks ++ (on_token t ∷ []);
}

abbrev pub add_call : ToolCall → Progress → Progress
add_call c p = record p {
  tool_calls = p.tool_calls ++ (c ∷ []);
  callbacks = p.callbacks ++ (on_tool_call c ∷ []);
}

-- `finalizeDeadline`, `none` while it is not armed.
unfoldable pub arm : ℕ → Round → Option ℕ → Option ℕ
arm timeout r (some d) = some d
arm timeout r none = if r.flag then some (r.armed_at + timeout) else none

abbrev pub is_past : Round → Option ℕ → Bool
is_past r none = false
is_past r (some d) = ltb d r.checked_at

-- How the loop ends at the last token.
abbrev pub last_ending : Option ℕ → Ending
last_ending none = completed
last_ending (some d) = preempted

-- One round, when `past` says whether the deadline has passed; `next` are the rounds after it.
abbrev pub on_round : Bool → Option ℕ → Progress → Read → (Progress → Run) → Run
on_round true deadline p read next = record { ended = preempted; progress = p }
on_round false deadline p no_message next = next p
on_round false deadline p passed_over next = next p
on_round false deadline p (tool_call c) next = next (add_call c p)
on_round false deadline p (token t true) next = record {
  ended = last_ending deadline;
  progress = p;
}
on_round false deadline p (token t false) next = next (add_token t p)

unfoldable pub execute_loop : ℕ → Option ℕ → Progress → List Round → Run
execute_loop timeout deadline p [] = record { ended = running; progress = p }
execute_loop timeout deadline p (r ∷ rs) =
    let armed = arm timeout r deadline in
    on_round (is_past r armed) armed p r.read (λ q. execute_loop timeout armed q rs)

pub data Executed : Type 0 where
  no_slot_error failed : Executed
  ran : Run → Executed

-- `ready` says whether the request is made and published and the group of its reply stream is
-- there.
unfoldable pub execute : ℕ → Bool → List Round → Runtime → Executed × Runtime
execute timeout ready rounds r =
    let cleared = record r { progress_log = [] } in
    if eqb_ℤ r.slot_id no_slot
    then (no_slot_error, cleared)
    else if not ready
    then (failed, cleared)
    else (let run = execute_loop timeout none nothing_yet rounds in
        (ran run, record cleared { progress_log = run.progress.log }))

-- `strings.Join` with the empty text.
unfoldable pub join : List String → String
join [] = ""
join (t ∷ ts) = str_append t (join ts)

unfoldable pub build_resumption_context : Runtime → List ChatMsg → List ChatMsg
build_resumption_context r original =
    let partial_output = join r.progress_log in
    if str_eq partial_output ""
    then original
    else original
      ++ (record {
        role = "assistant";
        content = partial_output;
        tool_calls = [];
        tool_call_id = "";
      }
          ∷ [])
