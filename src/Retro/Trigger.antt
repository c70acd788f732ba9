-- ===== src/Retro/Trigger.antt =====
-- internal/retro/trigger.go: the timers of the inactivity trigger, and the trigger at a session's
-- end. A timer is a number. `armed` are the timers that run, `callbacks` those whose function has
-- started: it activates the session, which takes as long as the jobs, and then deletes the
-- session's entry.
pub mod Debounce
use microagent.Prelude.{
  ℕ, suc, ◌==◌, String, Bool, true, false, Option, none, some, List, [], ◌∷◌, ◌++◌, if◌then◌else◌,
}
use microagent.Prelude.Text.{str_eq}
use microagent.Response.{Map, lookup, insert, remove}

abbrev pub Timers : Type 0
Timers = List (ℕ × String)

pub record Trigger : Type 0 where
  -- `timers`
  pub timers : Map ℕ
  pub armed : Timers
  pub callbacks : Timers
  pub next_timer : ℕ
  pub activations : List String

abbrev pub new_trigger : Trigger
new_trigger = record { timers = []; armed = []; callbacks = []; next_timer = 0; activations = [] }

-- Without the timer of a number.
unfoldable pub without : ℕ → Timers → Timers
without id [] = []
without id ((other, sid) ∷ ts) =
    let rest = without id ts in if other == id then rest else (other, sid) ∷ rest

-- `timer.Stop()`, which does nothing to a timer that has fired.
abbrev pub stop : Option ℕ → Timers → Timers
stop none ts = ts
stop (some id) ts = without id ts

-- An event of a session stops its timer, if there is an entry, and starts another.
unfoldable pub on_session_event : String → Trigger → Trigger
on_session_event sid s = record s {
  timers = insert sid s.next_timer s.timers;
  armed = stop (lookup sid s.timers) s.armed ++ ((s.next_timer, sid) ∷ []);
  next_timer = suc s.next_timer;
}

-- A timer fires: its function starts with the activation.
unfoldable pub fire_timer : ℕ → String → Trigger → Trigger
fire_timer id sid s = record s {
  armed = without id s.armed;
  callbacks = s.callbacks ++ ((id, sid) ∷ []);
  activations = s.activations ++ (sid ∷ []);
}

-- The activation returns, and the entry of the session is deleted.
unfoldable pub finish_callback : ℕ → String → Trigger → Trigger
finish_callback id sid s = record s {
  callbacks = without id s.callbacks;
  timers = remove sid s.timers;
}

-- `RunSessionEndTrigger`, for an event of a name.
unfoldable pub on_session_end : String → String → Trigger → Trigger
on_session_end event sid s =
    if str_eq event "session_ended"
    then record s { activations = s.activations ++ (sid ∷ []) }
    else s
