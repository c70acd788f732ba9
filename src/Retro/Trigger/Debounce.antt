-- ===== src/Retro/Trigger/Debounce.antt =====
-- internal/retro/trigger.go: how many timers a session has.
use microagent.Prelude.{
  ℕ, ◌==◌, ==_iff, String, Bool, true, false, ◌≡◌, ◌≢◌, refl, sym, ap, ◌∙◌, subst, Option, none,
  some, List, [], ◌∷◌, ◌++◌, All, if◌then◌else◌, Bool-cases, inl, inr, arith,
}
use microagent.Prelude.Text.{str_eq, eq_iff, eq_refl}
use microagent.Response.{Map, lookup, insert, remove, lookup-insert, lookup-remove}
use microagent.Retro.Trigger.{
  Timers, Trigger, new_trigger, without, stop, on_session_event, fire_timer, finish_callback,
  on_session_end,
}

-- What happens when the activation of a session returns before the next event comes.
pub data Calm : Trigger → Type 0 where
  start : Calm new_trigger
  event : {s : Trigger} → Calm s → (sid : String) → Calm (on_session_event sid s)
  activation :
      {s : Trigger}
      → Calm s
      → (id : ℕ) (sid : String) (before after : Timers) → s.armed ≡ before ++ ((id, sid) ∷ after)
      → Calm (finish_callback id sid (fire_timer id sid s))
  ended : {s : Trigger} → Calm s → (name sid : String) → Calm (on_session_end name sid s)

-- The timers that run for a session.
abbrev pub of_session : String → Timers → List ℕ
of_session sid [] = []
of_session sid ((id, other) ∷ ts) =
    if str_eq other sid then id ∷ of_session sid ts else of_session sid ts

abbrev Entered : Map ℕ → ℕ × String → Type 0
Entered timers (id, sid) = lookup sid timers ≡ some id

without-All :
    (P Q : ℕ × String → Type 0) (id : ℕ) (ts : Timers)
    → ((t : ℕ × String) → t.0 ≢ id → P t → Q t)
    → All P ts
    → All Q (without id ts)
unfolding without
without-All P Q id [] f h = tt
without-All P Q id ((other, sid) ∷ ts) f h = elim (Bool-cases (other == id)) [
  | inl e ↦ rw e (without-All P Q id ts f h.1)
  | inr e ↦ rw e (
    f (other, sid) (λ q. absurd (ground (arith, q, e, ==_iff other id))) h.0,
    without-All P Q id ts f h.1,
  )
]

-- A timer of another session, with its entry.
abbrev Other : String → Map ℕ → ℕ × String → Type 0
Other sid timers (id, other) = (other ≢ sid) × Entered timers (id, other)

other_of :
    (sid : String) (timers : Map ℕ) (id : ℕ) (t : ℕ × String)
    → lookup sid timers ≡ some id
    → t.0 ≢ id
    → Entered timers t
    → Other sid timers t
other_of sid timers id (i, other) e ne h = (
  λ q.
      let p : some i ≡ some id = sym h ∙ ap (λ k. lookup k timers) q ∙ e in
      let r : i ≡ id = cc in ne r,
  h,
)

stopped :
    (sid : String) (timers : Map ℕ) (o : Option ℕ) (ts : Timers)
    → lookup sid timers ≡ o
    → All (Entered timers) ts
    → All (Other sid timers) (stop o ts)
stopped sid timers none [] e h = tt
stopped sid timers none ((i, other) ∷ ts) e h = (
  (λ q. absurd (let p = sym (h.0) ∙ ap (λ k. lookup k timers) q ∙ e in cc), h.0),
  stopped sid timers none ts e h.1,
)
stopped sid timers (some id) ts e h =
    without-All (Entered timers) (Other sid timers) id ts
      (λ t ne k. other_of sid timers id t e ne k) h

Entered-after :
    (sid : String) (timers after : Map ℕ) (ts : Timers)
    → ((other : String) → other ≢ sid → lookup other after ≡ lookup other timers)
    → All (Other sid timers) ts
    → All (Entered after) ts
Entered-after sid timers after [] f h = tt
Entered-after sid timers after ((i, other) ∷ ts) f h =
    (f other h.0.0 ∙ h.0.1, Entered-after sid timers after ts f h.1)

insert_other :
    (sid : String) (n : ℕ) (timers : Map ℕ) (other : String)
    → other ≢ sid
    → lookup other (insert sid n timers) ≡ lookup other timers
insert_other sid n timers other ne =
    let q : str_eq sid other ≡ false = ground (arith, eq_iff sid other) in
    rw (lookup-insert sid other n timers, q) refl

remove_other :
    (sid : String) (timers : Map ℕ) (other : String)
    → other ≢ sid
    → lookup other (remove sid timers) ≡ lookup other timers
remove_other sid timers other ne =
    let q : str_eq sid other ≡ false = ground (arith, eq_iff sid other) in
    rw (lookup-remove sid other timers, q) refl

All-add {ℓ κ} :
    {A : Type ℓ} (P : A → Type κ) (xs : List A) (y : A) → All P xs → P y → All P (xs ++ (y ∷ []))
All-add P [] y h k = (k, tt)
All-add P (x ∷ xs) y h k = (h.0, All-add P xs y h.1 k)

All-middle {ℓ κ} :
    {A : Type ℓ} (P : A → Type κ) (xs : List A) (y : A) (ys : List A) → All P (xs ++ (y ∷ ys)) → P y
All-middle P [] y ys h = h.0
All-middle P (x ∷ xs) y ys h = All-middle P xs y ys h.1

-- Every running timer is the one that is entered for its session.
Calm-Entered : {s : Trigger} → Calm s → All (Entered s.timers) s.armed
unfolding on_session_event fire_timer finish_callback on_session_end
Calm-Entered start = tt
Calm-Entered (event {s} c sid) =
    let h = stopped sid s.timers (lookup sid s.timers) s.armed refl (Calm-Entered c) in
    All-add (Entered (insert sid s.next_timer s.timers)) (stop (lookup sid s.timers) s.armed)
      (s.next_timer, sid)
      (Entered-after sid s.timers (insert sid s.next_timer s.timers) _
        (insert_other sid s.next_timer s.timers) h)
      (rw (lookup-insert sid sid s.next_timer s.timers, eq_refl sid) refl)
Calm-Entered (activation {s} c id sid before after e) =
    let ih = Calm-Entered c in
    let here : lookup sid s.timers ≡ some id =
      All-middle (Entered s.timers) before (id, sid) after (subst (All (Entered s.timers)) e ih) in
    Entered-after sid s.timers (remove sid s.timers) (without id s.armed)
      (remove_other sid s.timers) (stopped sid s.timers (some id) s.armed here ih)
Calm-Entered (ended {s} c name sid) = either (str_eq name "session_ended") (Calm-Entered c)
  where
    either :
        (b : Bool)
        → All (Entered s.timers) s.armed
        → let after = if b then record s { activations = s.activations ++ (sid ∷ []) } else s in
          All (Entered after.timers) after.armed
    either true h = h
    either false h = h

of_session_none :
    (sid : String) (timers : Map ℕ) (ts : Timers) (n : ℕ)
    → All (Other sid timers) ts
    → of_session sid (ts ++ ((n, sid) ∷ [])) ≡ n ∷ []
of_session_none sid timers [] n h = rw (eq_refl sid) refl
of_session_none sid timers ((i, other) ∷ ts) n h =
    let q : str_eq other sid ≡ false = ground (arith, h.0.0, eq_iff other sid) in
    rw q (of_session_none sid timers ts n h.1)

-- As long as every activation returns before the next event, an event of a session leaves exactly
-- one timer running for the session, the new one.
pub on_session_event_one :
    (s : Trigger) (sid : String)
    → Calm s
    → of_session sid (on_session_event sid s).armed ≡ s.next_timer ∷ []
unfolding on_session_event
on_session_event_one s sid c =
    of_session_none sid s.timers (stop (lookup sid s.timers) s.armed) s.next_timer
      (stopped sid s.timers (lookup sid s.timers) s.armed refl (Calm-Entered c))
