-- ===== src/Examples/Registry.antt =====
-- internal/registry on a small registry.
use microagent.Prelude.{String, ◌≡◌, ◌≢◌, refl, true, false, none, some, List, [], ◌∷◌}
use microagent.Prelude.Int.{pos}
use microagent.Registry.{AgentInfo, Registry, RegisterPayload, announce, get}
use microagent.Registry.Watch.{
  Monitor, Watcher, WatchEvent, ticked, announced, has, find_watcher, expire, watch,
}
use microagent.Registry.Watch.Rewatch.{deaths, expired_never_watched}

abbrev main_agent : AgentInfo
main_agent = record {
  agent_id = "main";
  priority = pos 0;
  preemptible = false;
  capabilities = [];
  trigger = "request";
  heartbeat_interval_ms = pos 3000;
  last_heartbeat = 0;
  alive = true;
  dashboard_panel = none;
}

abbrev one_agent : Registry
one_agent = ("main", main_agent) ∷ []

abbrev main_payload : RegisterPayload
main_payload = record {
  agent_id = "main";
  priority = pos 0;
  preemptible = false;
  capabilities = [];
  trigger = "request";
  heartbeat_interval_ms = pos 3000;
  dashboard_panel = none;
}

abbrev main_watcher : Watcher
main_watcher = record { agent_id = "main"; threshold = 9000000000; deadline = 9000000000 }

abbrev watched : Monitor
watched = record {
  registry = one_agent;
  subscriptions = "main" ∷ [];
  watchers = main_watcher ∷ [];
  on_dead = [];
}

abbrev same_case : String → String
same_case s = s

-- The agent comes back, and a tick follows.
abbrev comes_back : List WatchEvent
comes_back = announced 9500000000 (announce (some main_payload)) ∷ ticked 10000000000 ∷ []

main_registered : get "main" one_agent ≢ none
unfolding get
main_registered e = cc

expired_never_watched_example :
    let m' = watch same_case same_case comes_back (expire 9000000000 "main" watched) in
    (find_watcher "main" m'.watchers ≡ none)
    × (has "main" m'.subscriptions ≡ true)
    × (deaths "main" m'.on_dead ≡ 1)
unfolding find_watcher
expired_never_watched_example =
    expired_never_watched same_case same_case 9000000000 "main" comes_back watched main_watcher refl
      main_registered refl refl (tt, (tt, tt))
