-- ===== src/Messaging/Consume.antt =====
-- `ConsumeStream` of internal/messaging/consume.go, with `checkPhantomConsume`. A round of the loop
-- is given by what it finds: what the ticker's check sees of the groups, if it has ticked, and what
-- the read comes to. Log lines are left out, and with them the time of the last one.
pub mod Kept
pub mod Handled
pub mod Phantom
use Prim.Native.String.{slice, len}
use text.Mathlib.Text.{starts_with}
use microagent.Prelude.{
  ℕ, zero, suc, ◌*◌, ltb, leb, ◌==◌, String, Bool, true, false, not, ◌&&◌, ◌||◌, Option, none, some,
  List, [], ◌∷◌, ◌++◌, if◌then◌else◌,
}
use microagent.Prelude.Int.{ℤ, pos_part}
use microagent.Prelude.Text.{str_eq}
use microagent.Messaging.{Message, Entry, read_group}

abbrev pub consume_backoff_start : ℕ
consume_backoff_start = 100000000

abbrev pub consume_backoff_cap : ℕ
consume_backoff_cap = 5000000000

-- `redis.Nil`, or an error by its text.
pub data ReadError : Type 0 where
  redis_nil : ReadError
  redis_text : String → ReadError

pub data ErrClass : Type 0 where
  err_class_unknown err_class_nil err_class_no_group : ErrClass

-- `strings.Contains`, from one of the last positions of the text on.
unfoldable pub contains_from : ℕ → String → String → Bool
contains_from zero text sub = starts_with sub text
contains_from (suc n) text sub =
    let rest = contains_from n (slice text 1 (len text)) sub in starts_with sub text || rest

unfoldable pub classify_error : Option ReadError → ErrClass
classify_error none = err_class_nil
classify_error (some redis_nil) = err_class_nil
classify_error (some (redis_text text)) =
    if starts_with "NOGROUP" text || contains_from (len text) text "no such key"
    then err_class_no_group
    else err_class_unknown

unfoldable pub next_backoff : ℕ → ℕ
next_backoff current =
    let next = current * 2 in if ltb consume_backoff_cap next then consume_backoff_cap else next

-- An entry of `XINFO GROUPS`.
pub record GroupInfo : Type 0 where
  pub name : String
  pub entries_read : ℤ

-- `ConsumeStats` and the loop's variables, the messages that the handler was called with, and the
-- ids that were acknowledged.
pub record Consumer : Type 0 where
  pub handled : ℕ
  pub handler_errors : ℕ
  pub recoveries : ℕ
  pub phantom_logs : ℕ
  pub backoff : ℕ
  pub unknown_error_streak : ℕ
  pub last_handled_baseline : ℕ
  pub calls : List Message
  pub acked : List String

abbrev pub new_consumer : Consumer
new_consumer = record {
  handled = 0;
  handler_errors = 0;
  recoveries = 0;
  phantom_logs = 0;
  backoff = consume_backoff_start;
  unknown_error_streak = 0;
  last_handled_baseline = 0;
  calls = [];
  acked = [];
}

abbrev pub log_phantom : Bool → Consumer → Consumer
log_phantom false c = c
log_phantom true c = record c { phantom_logs = suc c.phantom_logs }

abbrev pub check_group : ℕ → Consumer → Consumer
check_group entries_read c =
    record (log_phantom
      (not (leb entries_read c.handled)
        && (c.last_handled_baseline == c.handled && ltb c.handled entries_read))
      c) { last_handled_baseline = c.handled }

-- The groups are `none` when they cannot be read.
unfoldable pub check_phantom_consume : String → Option (List GroupInfo) → Consumer → Consumer
check_phantom_consume group none c = c
check_phantom_consume group (some []) c = c
check_phantom_consume group (some (g ∷ gs)) c =
    let rest = check_phantom_consume group (some gs) c in
    if not (str_eq g.name group) then rest else check_group (pos_part g.entries_read) c

-- A read, and with an error whether the group is made again and whether the context is done while
-- the loop sleeps.
pub data ReadEnd : Type 0 where
  failed : ReadError → (recreated done : Bool) → ReadEnd
  read : List Entry → ReadEnd

pub data Round : Type 0 where
  context_done : Round
  round : (tick : Option (Option (List GroupInfo))) → ReadEnd → Round

abbrev pub on_tick : String → Option (Option (List GroupInfo)) → Consumer → Consumer
on_tick group none c = c
on_tick group (some groups) c = check_phantom_consume group groups c

abbrev pub reset : Consumer → Consumer
reset c = record c { unknown_error_streak = 0; backoff = consume_backoff_start }

abbrev pub back_off : Consumer → Consumer
back_off c = record c { backoff = next_backoff c.backoff }

-- The loop's variables after an error, and whether it goes on.
abbrev pub on_error : ErrClass → (recreated done : Bool) → Consumer → Bool × Consumer
on_error err_class_nil recreated done c = (true, reset c)
on_error err_class_no_group true done c = (true, record c { recoveries = suc c.recoveries })
on_error err_class_no_group false done c =
    (true, back_off (record c { recoveries = suc c.recoveries }))
on_error err_class_unknown recreated true c =
    (false, record c { unknown_error_streak = suc c.unknown_error_streak })
on_error err_class_unknown recreated false c =
    (true, back_off (record c { unknown_error_streak = suc c.unknown_error_streak }))

-- `accepts` says whether the handler returns without an error.
abbrev pub count_call : Bool → Consumer → Consumer
count_call true c = record c { handled = suc c.handled }
count_call false c = record c { handler_errors = suc c.handler_errors }

unfoldable pub handle_messages : (Message → Bool) → List (Message × String) → Consumer → Consumer
handle_messages accepts [] c = c
handle_messages accepts ((m, id) ∷ ms) c =
    let counted = count_call (accepts m) (record c { calls = c.calls ++ (m ∷ []) }) in
    handle_messages accepts ms (record counted { acked = counted.acked ++ (id ∷ []) })

abbrev pub on_read :
    (String → Option Message) → (Message → Bool) → ReadEnd → Consumer → Bool × Consumer
on_read unmarshal accepts (failed e recreated done) c =
    on_error (classify_error (some e)) recreated done c
on_read unmarshal accepts (read es) c =
    let b = read_group unmarshal es in
    (true, handle_messages accepts b.msgs (reset (record c { acked = c.acked ++ b.acked })))

pub data ConsumeEnd : Type 0 where
  group_error context_error running : ConsumeEnd

abbrev pub go_on : Bool × Consumer → (Consumer → ConsumeEnd × Consumer) → ConsumeEnd × Consumer
go_on (true, c) next = next c
go_on (false, c) next = (context_error, c)

unfoldable pub consume_loop :
    (String → Option Message)
    → (Message → Bool)
    → String
    → List Round
    → Consumer
    → ConsumeEnd × Consumer
consume_loop unmarshal accepts group [] c = (running, c)
consume_loop unmarshal accepts group (context_done ∷ rs) c = (context_error, c)
consume_loop unmarshal accepts group (round tick end ∷ rs) c =
    go_on (on_read unmarshal accepts end (on_tick group tick c))
      (consume_loop unmarshal accepts group rs)

-- `ensured` says whether the group is there at the start.
unfoldable pub consume_stream :
    (String → Option Message)
    → (Message → Bool)
    → String
    → Bool
    → List Round
    → ConsumeEnd × Consumer
consume_stream unmarshal accepts group ensured rounds =
    let run = consume_loop unmarshal accepts group rounds new_consumer in
    if not ensured then (group_error, new_consumer) else run
