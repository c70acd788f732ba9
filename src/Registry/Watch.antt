-- ===== src/Registry/Watch.antt =====
-- internal/registry/consumer.go: `RunHeartbeatMonitor` and the `monitorAgent` goroutines it starts.
-- A watcher is one running `monitorAgent` with the time at which its timer fires; its context is
-- cancelled by removing it. The events are the reads of the `select` loops, in the order in which
-- they are taken; an event that nobody is there to take changes nothing. Times are nanoseconds.
use microagent.Prelude.{
  ℕ, ◌+◌, ◌*◌, String, Bool, true, false, ◌&&◌, ◌||◌, Option, none, some, List, [], ◌∷◌, ltb, not,
  if◌then◌else◌,
}
use microagent.Prelude.Int.{ℤ, pos_part}
use microagent.Prelude.Text.{str_eq}
use microagent.Registry.{
  AgentInfo, Registry, Announcement, get, mark_heartbeat, mark_dead, list_alive,
  consume_announcement,
}
pub mod Rewatch

pub record Watcher : Type 0 where
  pub agent_id : String
  pub threshold : ℕ
  pub deadline : ℕ

-- `on_dead` lists the agents that `onDead` was called for, latest first.
pub record Monitor : Type 0 where
  pub registry : Registry
  pub subscriptions : List String
  pub watchers : List Watcher
  pub on_dead : List String

abbrev pub has : String → List String → Bool
has k [] = false
has k (x ∷ xs) = str_eq x k || has k xs

unfoldable pub drop_watcher : String → List Watcher → List Watcher
drop_watcher k [] = []
drop_watcher k (w ∷ ws) = if str_eq w.agent_id k then drop_watcher k ws else w ∷ drop_watcher k ws

unfoldable pub find_watcher : String → List Watcher → Option Watcher
find_watcher k [] = none
find_watcher k (w ∷ ws) = if str_eq w.agent_id k then some w else find_watcher k ws

unfoldable pub reset_watcher : ℕ → String → List Watcher → List Watcher
reset_watcher now k [] = []
reset_watcher now k (w ∷ ws) =
    if str_eq w.agent_id k
    then record w { deadline = now + w.threshold } ∷ ws
    else w ∷ reset_watcher now k ws

-- Three intervals of milliseconds; a timer of a negative duration fires at once.
abbrev pub miss_threshold : AgentInfo → ℕ
miss_threshold info = pos_part info.heartbeat_interval_ms * 3 * 1000000

-- The first loop of a tick: an alive agent with no subscription gets one, and a watcher.
unfoldable pub subscribe_all :
    ℕ → List AgentInfo → List String × List Watcher → List String × List Watcher
subscribe_all now [] (subs, ws) = (subs, ws)
subscribe_all now (a ∷ as_) (subs, ws) = subscribe_all now as_ (
    if has a.agent_id subs then (subs, ws) else (
      a.agent_id ∷ subs,
      record {
        agent_id = a.agent_id;
        threshold = miss_threshold a;
        deadline = now + miss_threshold a;
      }
          ∷ ws,
    ))

-- The second loop: a subscription whose agent is no longer registered is cancelled and deleted.
unfoldable pub prune : Registry → List String → List Watcher → List String × List Watcher
prune r [] ws = ([], ws)
prune r (k ∷ ks) ws = elim (get k r) [
  | none ↦ prune r ks (drop_watcher k ws)
  | some _ ↦ let (ks', ws') = prune r ks ws in (k ∷ ks', ws')
]

unfoldable pub tick : ℕ → Monitor → Monitor
tick now m =
    let (subs, ws) = subscribe_all now (list_alive m.registry) (m.subscriptions, m.watchers) in
    let (subs', ws') = prune m.registry subs ws in
    record m { subscriptions = subs'; watchers = ws' }

-- A watcher reads a heartbeat.
unfoldable pub heartbeat : ℕ → String → Monitor → Monitor
heartbeat now k m = elim (find_watcher k m.watchers) [
  | none ↦ m
  | some w ↦ record m {
    registry = mark_heartbeat now k m.registry;
    watchers = reset_watcher now k m.watchers;
  }
]

-- A watcher's timer fires, if its time has come: the agent is marked dead, `onDead` is called, and
-- the watcher returns. The subscription stays.
unfoldable pub expire : ℕ → String → Monitor → Monitor
expire now k m = elim (find_watcher k m.watchers) [
  | none ↦ m
  | some w ↦ if ltb now w.deadline then m else record m {
    registry = mark_dead k m.registry;
    watchers = drop_watcher k m.watchers;
    on_dead = k ∷ m.on_dead;
  }
]

pub data WatchEvent : Type 0 where
  ticked : ℕ → WatchEvent
  beaten expired : ℕ → String → WatchEvent
  announced : ℕ → Announcement → WatchEvent

module _ (to_upper to_lower : String → String) where
  unfoldable pub watch_step : WatchEvent → Monitor → Monitor
  watch_step (ticked now) m = tick now m
  watch_step (beaten now k) m = heartbeat now k m
  watch_step (expired now k) m = expire now k m
  watch_step (announced now a) m = record m {
    registry = (consume_announcement to_upper to_lower now a m.registry).0;
  }

  unfoldable pub watch : List WatchEvent → Monitor → Monitor
  watch [] m = m
  watch (e ∷ es) m = watch es (watch_step e m)
