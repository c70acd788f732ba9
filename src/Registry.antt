-- ===== src/Registry.antt =====
-- internal/registry: the agents that have announced themselves (agent.go), the consumer of their
-- announcements and the watch of their heartbeats (consumer.go). The Go map from agent ids to
-- records is a list of pairs with one entry for each id; where the code ranges over the map the
-- model ranges over the list, one of the orders that Go may take. The records are behind pointers,
-- which only this package writes through, under its lock. The clock's reading is an argument.
pub mod Lookup
pub mod Watch
use microagent.Prelude.{
  ℕ, ◌*◌, String, Bool, true, false, ◌&&◌, not, Option, none, some, List, [], ◌∷◌, if◌then◌else◌,
}
use microagent.Prelude.Int.{ℤ}
use microagent.Prelude.Text.{str_eq}
use microagent.Dashboard.{PanelDescriptor, Problem, validate_descriptor}

pub record AgentInfo : Type 0 where
  pub agent_id : String
  pub priority : ℤ
  pub preemptible : Bool
  pub capabilities : List String
  pub trigger : String
  pub heartbeat_interval_ms : ℤ
  pub last_heartbeat : ℕ
  pub alive : Bool
  pub dashboard_panel : Option PanelDescriptor

abbrev pub Registry : Type 0
Registry = List (String × AgentInfo)

abbrev pub new_registry : Registry
new_registry = []

-- `r.agents[id] = info`
unfoldable pub put : String → AgentInfo → Registry → Registry
put k v [] = (k, v) ∷ []
put k v ((j, w) ∷ r) = if str_eq j k then (k, v) ∷ r else (j, w) ∷ put k v r

unfoldable pub get : String → Registry → Option AgentInfo
get k [] = none
get k ((j, w) ∷ r) = if str_eq j k then some w else get k r

unfoldable pub deregister : String → Registry → Registry
deregister k [] = []
deregister k ((j, w) ∷ r) = if str_eq j k then deregister k r else (j, w) ∷ deregister k r

unfoldable pub register : ℕ → AgentInfo → Registry → Registry
register now info r = put info.agent_id (record info { alive = true; last_heartbeat = now }) r

unfoldable pub mark_heartbeat : ℕ → String → Registry → Registry
mark_heartbeat now k r = elim (get k r) [
  | none ↦ r
  | some info ↦ put k (record info { last_heartbeat = now; alive = true }) r
]

unfoldable pub mark_dead : String → Registry → Registry
mark_dead k r = elim (get k r) [ none ↦ r | some info ↦ put k (record info { alive = false }) r ]

-- The three listings keep the entries that pass a test.
abbrev pub keep_infos : (AgentInfo → Bool) → Registry → List AgentInfo
keep_infos test [] = []
keep_infos test ((j, w) ∷ r) = if test w then w ∷ keep_infos test r else keep_infos test r

unfoldable pub list_alive : Registry → List AgentInfo
list_alive r = keep_infos (λ w. w.alive) r

unfoldable pub list_preemptible : Registry → List AgentInfo
list_preemptible r = keep_infos (λ w. w.alive && w.preemptible) r

unfoldable pub list_dead : Registry → List AgentInfo
list_dead r = keep_infos (λ w. not w.alive) r

pub record RegisterPayload : Type 0 where
  pub agent_id : String
  pub priority : ℤ
  pub preemptible : Bool
  pub capabilities : List String
  pub trigger : String
  pub heartbeat_interval_ms : ℤ
  pub dashboard_panel : Option PanelDescriptor

-- A message of the announcement stream: `none` is a payload that does not decode.
pub data Announcement : Type 0 where
  announce : Option RegisterPayload → Announcement
  retire : Option String → Announcement
  other : Announcement

-- A panel that fails validation is dropped, and the agent registered without it.
abbrev pub checked_panel :
    (String → String) → (String → String) → Option PanelDescriptor → Option PanelDescriptor
checked_panel to_upper to_lower none = none
checked_panel to_upper to_lower (some p) = elim (validate_descriptor to_upper to_lower (some p)) [
  | none ↦ some p
  | some e ↦ none
]

abbrev pub info_of : (String → String) → (String → String) → RegisterPayload → AgentInfo
info_of to_upper to_lower p = record {
  agent_id = p.agent_id;
  priority = p.priority;
  preemptible = p.preemptible;
  capabilities = p.capabilities;
  trigger = p.trigger;
  heartbeat_interval_ms = p.heartbeat_interval_ms;
  last_heartbeat = 0;
  alive = false;
  dashboard_panel = checked_panel to_upper to_lower p.dashboard_panel;
}

-- One message of `RunRegistrationConsumer`: the new registry, and whether the message is
-- acknowledged (a payload that does not decode is skipped by `continue`, before the
-- acknowledgement).
unfoldable pub consume_announcement :
    (String → String) → (String → String) → ℕ → Announcement → Registry → Registry × Bool
consume_announcement to_upper to_lower now (announce none) r = (r, false)
consume_announcement to_upper to_lower now (announce (some p)) r =
    (register now (info_of to_upper to_lower p) r, true)
consume_announcement to_upper to_lower now (retire none) r = (r, false)
consume_announcement to_upper to_lower now (retire (some k)) r = (deregister k r, true)
consume_announcement to_upper to_lower now other r = (r, true)
