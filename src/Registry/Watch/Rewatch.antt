-- ===== src/Registry/Watch/Rewatch.antt =====
-- An agent whose heartbeats were missed once, in internal/registry/consumer.go.
use microagent.Prelude.{
  ℕ, suc, String, ◌≡◌, ◌≢◌, ◌∙◌, refl, true, false, none, some, List, [], ◌∷◌, arith, All,
  Bool-cases, Option-cases, inl, inr, if◌then◌else◌, ltb,
}
use microagent.Prelude.Text.{str_eq, eq_iff, eq_refl}
use microagent.Registry.{
  AgentInfo, Registry, Announcement, announce, retire, other, get, mark_dead, list_alive,
  consume_announcement, info_of,
}
use microagent.Registry.Lookup.{get-register, get-deregister, get-mark_heartbeat, get-mark_dead}
use microagent.Registry.Watch.{
  Watcher, Monitor, WatchEvent, ticked, beaten, expired, announced, has, find_watcher, drop_watcher,
  reset_watcher, subscribe_all, prune, tick, heartbeat, expire, watch_step, watch,
}

find-drop :
    (k j : String) (ws : List Watcher)
    → find_watcher k ws ≡ none
    → find_watcher k (drop_watcher j ws) ≡ none
unfolding find_watcher drop_watcher
find-drop k j [] h = refl
find-drop k j (w ∷ ws) h = ground (arith, find-drop k j ws)

find-drop_self : (k : String) (ws : List Watcher) → find_watcher k (drop_watcher k ws) ≡ none
unfolding find_watcher drop_watcher
find-drop_self k [] = refl
find-drop_self k (w ∷ ws) = ground (arith, find-drop_self k ws)

find-reset :
    (now : ℕ) (k j : String) (ws : List Watcher)
    → find_watcher k ws ≡ none
    → find_watcher k (reset_watcher now j ws) ≡ none
unfolding find_watcher reset_watcher
find-reset now k j [] h = refl
find-reset now k j (w ∷ ws) h = ground (arith, find-reset now k j ws)

-- Subscribed, registered, and not watched.
pub record IsOrphan (k : String) (m : Monitor) : Type 0 where
  pub subscribed : has k m.subscriptions ≡ true
  pub unwatched : find_watcher k m.watchers ≡ none
  pub registered : get k m.registry ≢ none

subscribe_all-orphan :
    (now : ℕ) (k : String) (as_ : List AgentInfo) (subs : List String) (ws : List Watcher)
    → has k subs ≡ true
    → find_watcher k ws ≡ none
    → (has k (subscribe_all now as_ (subs, ws)).0 ≡ true)
      × (find_watcher k (subscribe_all now as_ (subs, ws)).1 ≡ none)
unfolding subscribe_all find_watcher
subscribe_all-orphan now k [] subs ws h f = (h, f)
subscribe_all-orphan now k (a ∷ as_) subs ws h f = elim (Bool-cases (has a.agent_id subs)) [
  | inl old ↦ rw (old, subscribe_all) (subscribe_all-orphan now k as_ subs ws h f)
  | inr new ↦
      rw (new, subscribe_all)
        (subscribe_all-orphan now k as_ (a.agent_id ∷ subs) _ (ground arith)
          (ground (arith, eq_iff a.agent_id k)))
]

prune-orphan :
    (k : String) (r : Registry) (subs : List String) (ws : List Watcher)
    → get k r ≢ none
    → find_watcher k ws ≡ none
    → (has k (prune r subs ws).0 ≡ has k subs) × (find_watcher k (prune r subs ws).1 ≡ none)
unfolding prune
prune-orphan k r [] ws g f = (refl, f)
prune-orphan k r (j ∷ js) ws g f = elim (Option-cases (get j r)) [
  | inl e ↦
      rw (e, prune)
        (let (h, f') = prune-orphan k r js (drop_watcher j ws) g (find-drop k j ws f) in
          (ground (arith, eq_iff j k), f'))
  | inr (i, e) ↦ rw (e, prune) (let (h, f') = prune-orphan k r js ws g f in (ground arith, f'))
]

tick-IsOrphan : (now : ℕ) (k : String) (m : Monitor) → IsOrphan k m → IsOrphan k (tick now m)
unfolding tick
tick-IsOrphan now k m o =
    let (h, f) =
      subscribe_all-orphan now k (list_alive m.registry) m.subscriptions m.watchers o.subscribed
        o.unwatched in
    let (h', f') = prune-orphan k m.registry _ _ o.registered f in
    record { subscribed = h' ∙ h; unwatched = f'; registered = o.registered }

heartbeat-IsOrphan :
    (now : ℕ) (k j : String) (m : Monitor) → IsOrphan k m → IsOrphan k (heartbeat now j m)
unfolding heartbeat
heartbeat-IsOrphan now k j m o = elim (Option-cases (find_watcher j m.watchers)) [
  | inl e ↦ rw (e, heartbeat) o
  | inr (w, e) ↦
      rw (e, heartbeat)
        (record {
          subscribed = o.subscribed;
          unwatched = find-reset now k j m.watchers o.unwatched;
          registered = ground (arith, get-mark_heartbeat now j k m.registry, o.registered);
        })
]

expire-IsOrphan :
    (now : ℕ) (k j : String) (m : Monitor) → IsOrphan k m → IsOrphan k (expire now j m)
unfolding expire
expire-IsOrphan now k j m o = elim (Option-cases (find_watcher j m.watchers)) [
  | inl e ↦ rw (e, expire) o
  | inr (w, e) ↦ elim (Bool-cases (ltb now w.deadline)) [
    | inl early ↦ rw (e, expire) (rw early o)
    | inr due ↦
        rw (e, expire)
          (rw due (record {
            subscribed = o.subscribed;
            unwatched = find-drop k j m.watchers o.unwatched;
            registered = ground (arith, get-mark_dead j k m.registry, o.registered);
          }))
  ]
]

-- The announcement is no deregistration of the agent.
abbrev pub Keeps : String → WatchEvent → Type 0
Keeps k (announced now (retire (some j))) = j ≢ k
Keeps k _ = Unit

announce-IsOrphan :
    (to_upper to_lower : String → String) (now : ℕ) (k : String) (a : Announcement) (m : Monitor)
    → Keeps k (announced now a)
    → IsOrphan k m
    → IsOrphan k (watch_step to_upper to_lower (announced now a) m)
unfolding watch_step consume_announcement
announce-IsOrphan to_upper to_lower now k (announce none) m h o = o
announce-IsOrphan to_upper to_lower now k (announce (some p)) m h o = record {
  subscribed = o.subscribed;
  unwatched = o.unwatched;
  registered =
      ground (arith, get-register now (info_of to_upper to_lower p) k m.registry, o.registered);
}
announce-IsOrphan to_upper to_lower now k (retire none) m h o = o
announce-IsOrphan to_upper to_lower now k (retire (some j)) m h o = record {
  subscribed = o.subscribed;
  unwatched = o.unwatched;
  registered = ground (arith, get-deregister j k m.registry, o.registered, eq_iff j k);
}
announce-IsOrphan to_upper to_lower now k other m h o = o

step-IsOrphan :
    (to_upper to_lower : String → String) (k : String) (e : WatchEvent) (m : Monitor)
    → Keeps k e
    → IsOrphan k m
    → IsOrphan k (watch_step to_upper to_lower e m)
unfolding watch_step
step-IsOrphan to_upper to_lower k (ticked now) m h o = tick-IsOrphan now k m o
step-IsOrphan to_upper to_lower k (beaten now j) m h o = heartbeat-IsOrphan now k j m o
step-IsOrphan to_upper to_lower k (expired now j) m h o = expire-IsOrphan now k j m o
step-IsOrphan to_upper to_lower k (announced now a) m h o =
    announce-IsOrphan to_upper to_lower now k a m h o

-- How often `onDead` was called for an agent.
abbrev pub deaths : String → List String → ℕ
deaths k [] = 0
deaths k (j ∷ js) = if str_eq j k then suc (deaths k js) else deaths k js

expire-deaths :
    (now : ℕ) (k j : String) (m : Monitor)
    → find_watcher k m.watchers ≡ none
    → deaths k (expire now j m).on_dead ≡ deaths k m.on_dead
unfolding expire
expire-deaths now k j m u = ground (arith, eq_iff j k)

step-deaths :
    (to_upper to_lower : String → String) (k : String) (e : WatchEvent) (m : Monitor)
    → IsOrphan k m
    → deaths k (watch_step to_upper to_lower e m).on_dead ≡ deaths k m.on_dead
unfolding watch_step tick heartbeat
step-deaths to_upper to_lower k (ticked now) m o = refl
step-deaths to_upper to_lower k (beaten now j) m o = ground arith
step-deaths to_upper to_lower k (expired now j) m o = expire-deaths now k j m o.unwatched
step-deaths to_upper to_lower k (announced now a) m o = refl

watch-IsOrphan :
    (to_upper to_lower : String → String) (k : String) (es : List WatchEvent) (m : Monitor)
    → All (Keeps k) es
    → IsOrphan k m
    → IsOrphan k (watch to_upper to_lower es m)
      × (deaths k (watch to_upper to_lower es m).on_dead ≡ deaths k m.on_dead)
unfolding watch
watch-IsOrphan to_upper to_lower k [] m h o = (o, refl)
watch-IsOrphan to_upper to_lower k (e ∷ es) m h o =
    let (o', d) =
      watch-IsOrphan to_upper to_lower k es (watch_step to_upper to_lower e m) h.1
        (step-IsOrphan to_upper to_lower k e m h.0 o) in
    (o', d ∙ step-deaths to_upper to_lower k e m o)

fired :
    (now : ℕ) (k : String) (m : Monitor) (w : Watcher)
    → find_watcher k m.watchers ≡ some w
    → ltb now w.deadline ≡ false
    → expire now k m ≡ record m {
      registry = mark_dead k m.registry;
      watchers = drop_watcher k m.watchers;
      on_dead = k ∷ m.on_dead;
    }
unfolding expire
fired now k m w e due = rw (e, expire) (rw due)

-- Once the timer of a subscribed and registered agent's watcher has fired, the agent is reported
-- dead once, and then, whatever happens short of its deregistration (new registrations included),
-- it is never watched and never reported again.
pub expired_never_watched :
    (to_upper to_lower : String → String) (now : ℕ) (k : String) (es : List WatchEvent)
    (m : Monitor) (w : Watcher)
    → has k m.subscriptions ≡ true
    → get k m.registry ≢ none
    → find_watcher k m.watchers ≡ some w
    → ltb now w.deadline ≡ false
    → All (Keeps k) es
    → let m' = watch to_upper to_lower es (expire now k m) in
      (find_watcher k m'.watchers ≡ none)
      × (has k m'.subscriptions ≡ true)
      × (deaths k m'.on_dead ≡ suc (deaths k m.on_dead))
expired_never_watched to_upper to_lower now k es m w sub reg e due keep =
    rw (fired now k m w e due) (
      let (o, d) = watch-IsOrphan to_upper to_lower k es _ keep orphan in
      (o.unwatched, o.subscribed, d ∙ ground (arith, eq_refl k)))
  where
    orphan : IsOrphan k (record m {
      registry = mark_dead k m.registry;
      watchers = drop_watcher k m.watchers;
      on_dead = k ∷ m.on_dead;
    })
    orphan = record {
      subscribed = sub;
      unwatched = find-drop_self k m.watchers;
      registered = ground (arith, get-mark_dead k k m.registry, reg);
    }
