-- ===== src/Gateway/Sessions/Gone.antt =====
-- internal/gateway/server.go: a deleted session, and what a trigger leaves of the locks.
use microagent.Prelude.{
  ℕ, String, Bool, true, false, not, ◌&&◌, ◌≡◌, ◌≢◌, refl, ap, ◌⊎◌, inl, inr, Option, none, some,
  List, [], ◌∷◌, ◌++◌, Bool-cases, if◌then◌else◌, arith,
}
use microagent.Prelude.Text.{str_eq, eq_refl}
use microagent.Response.{Store, Failure, ok, failed, session_responses_key, is_seen}
use microagent.Response.Session.{session_exists}
use microagent.Response.Session.Delete.{delete_session_lem}
use microagent.Retro.{acquire_lock, release_lock, without_key, lock_key}
use microagent.Gateway.{Env, HandlerErr, internal_error}
use microagent.Gateway.Sessions.{
  session_error, session_deleted, not_found, existing, handle_get_session, handle_delete_session,
  Retro, RetroAnswer, accepted, retro_error, publish_trigger, with_lock, handle_retro_trigger,
  valid_job_type,
}

-- After the deletion of a session that exists, carried out in full, the session is not found:
-- neither when it is read nor when it is deleted again, which changes nothing.
pub handle_delete_session_lem :
    (env : Env) (n m : ℕ) (whole : Bool) (sid : String) (s : Store)
    → session_exists env.up sid s ≡ ok true
    → env.up (session_responses_key sid) ≡ true
    → let after = (handle_delete_session env true n sid s).1 in
      ((handle_delete_session env true n sid s).0 ≡ session_deleted)
      × (handle_get_session env sid after ≡ session_error (not_found "Session not found"))
      × (handle_delete_session env whole m sid after
          ≡ (session_error (not_found "Session not found"), after))
unfolding handle_delete_session handle_get_session
handle_delete_session_lem env n m whole sid s ex up =
    let d = delete_session_lem env.up env.json n sid s up in
    let done : handle_delete_session env true n sid s ≡ (session_deleted, d.0) =
      rw (ex, d.1, handle_delete_session) refl in
    rw done (refl, rw (d.2, handle_get_session) refl, rw (d.2, handle_delete_session) refl)

without_key-id :
    (key : String) (ks : List String) → is_seen key ks ≡ false → without_key key ks ≡ ks
unfolding without_key is_seen
without_key-id key [] h = refl
without_key-id key (k ∷ ks) h = elim (Bool-cases (str_eq k key)) [
  | inl e ↦ absurd (ground arith)
  | inr e ↦ rw e (ap (k ∷◌) (without_key-id key ks (ground arith)))
]

-- An answer and the state beside it: the lock taken and the trigger published, or nothing done, or
-- the lock left behind.
abbrev pub TakenUp : Env → String → String → RetroAnswer × Retro → Retro → Type 0
TakenUp env sid job_type (a, after) r =
    ((a ≡ accepted)
      × (is_seen (lock_key sid job_type) r.locks ≡ false)
      × (after ≡ record {
        locks = lock_key sid job_type ∷ r.locks;
        triggers = r.triggers ++ ((sid, job_type) ∷ []);
      }))
    ⊎ (((a ≢ accepted) × (after ≡ r))
        ⊎ ((a ≢ accepted)
            × (env.unlocked ≡ false)
            × ((env.message_made && env.published) ≡ false)
            × (is_seen (lock_key sid job_type) r.locks ≡ false)
            × (after ≡ record r { locks = lock_key sid job_type ∷ r.locks })))

module _ (env : Env) (sid job_type : String) where
  -- What is left of the lock that was just taken when it is given back.
  Left : Bool → List String → Retro → Type 0
  Left true ls r = ls ≡ r.locks
  Left false ls r = ls ≡ lock_key sid job_type ∷ r.locks

  release_lock-Left :
      (deleted : Bool) (r : Retro)
      → is_seen (lock_key sid job_type) r.locks ≡ false
      → Left deleted (release_lock deleted sid job_type (lock_key sid job_type ∷ r.locks)) r
  unfolding release_lock without_key Left
  release_lock-Left false r h = refl
  release_lock-Left true r h =
      rw (eq_refl (lock_key sid job_type)) (without_key-id (lock_key sid job_type) r.locks h)

  publish_trigger-TakenUp :
      (r : Retro)
      → is_seen (lock_key sid job_type) r.locks ≡ false
      → TakenUp env sid job_type
          (publish_trigger env sid job_type (record r { locks = lock_key sid job_type ∷ r.locks }))
          r
  unfolding Left
  publish_trigger-TakenUp r h =
      either env.message_made env.published env.unlocked refl refl
        (release_lock env.unlocked sid job_type (lock_key sid job_type ∷ r.locks)) refl
        (release_lock-Left env.unlocked r h)
    where
      not_taken :
          (m : HandlerErr) (deleted : Bool) (ls : List String)
          → env.unlocked ≡ deleted
          → (env.message_made && env.published) ≡ false
          → Left deleted ls r
          → TakenUp env sid job_type (retro_error m, record r { locks = ls }) r
      not_taken m true ls u p e = inr (inl (λ q. absurd (cc), ap (λ l. record r { locks = l }) e))
      not_taken m false ls u p e =
          inr (inr (λ q. absurd (cc), u, p, h, ap (λ l. record r { locks = l }) e))

      either :
          (made published deleted : Bool)
          → env.message_made ≡ made
          → env.published ≡ published
          → (ls : List String) → env.unlocked ≡ deleted
          → Left deleted ls r
          → TakenUp env sid job_type
              (if not made
                then (
                  retro_error (internal_error "Failed to create trigger message"),
                  record r { locks = ls },
                )
                else if not published
                then (
                  retro_error (internal_error "Failed to publish trigger"),
                  record r { locks = ls },
                )
                else (
                  accepted,
                  record {
                    locks = lock_key sid job_type ∷ r.locks;
                    triggers = r.triggers ++ ((sid, job_type) ∷ []);
                  },
                ))
              r
      either false published deleted m p ls u e =
          not_taken (internal_error "Failed to create trigger message") deleted ls u (rw m refl) e
      either true false deleted m p ls u e =
          not_taken (internal_error "Failed to publish trigger") deleted ls u (rw (m, p) refl) e
      either true true deleted m p ls u e = inl (refl, h, refl)

  with_lock-TakenUp :
      (r : Retro)
      → TakenUp env sid job_type
          (with_lock env sid job_type r (acquire_lock env.up sid job_type r.locks))
          r
  unfolding acquire_lock
  with_lock-TakenUp r =
      either (env.up (lock_key sid job_type)) (is_seen (lock_key sid job_type) r.locks) refl refl
    where
      either :
          (up held : Bool)
          → env.up (lock_key sid job_type) ≡ up
          → is_seen (lock_key sid job_type) r.locks ≡ held
          → TakenUp env sid job_type
              (with_lock env sid job_type r (
                if not up
                then (failed Failure.redis_error, r.locks)
                else if held
                then (ok false, r.locks)
                else (ok true, lock_key sid job_type ∷ r.locks)))
              r
      either false held u h = inr (inl (λ q. absurd (cc), refl))
      either true true u h = inr (inl (λ q. absurd (cc), refl))
      either true false u h = publish_trigger-TakenUp r h

  existing-TakenUp :
      (r : Retro) (o : Option HandlerErr)
      → TakenUp env sid job_type
          (elim o [
            | some e ↦ (retro_error e, r)
            | none ↦ with_lock env sid job_type r (acquire_lock env.up sid job_type r.locks)
          ])
          r
  existing-TakenUp r (some e) = inr (inl (λ q. absurd (cc), refl))
  existing-TakenUp r none = with_lock-TakenUp r

-- A trigger that is accepted takes the lock of its session and job, which was free, and is
-- published. Every other answer leaves the published triggers as they were, errors while the lock is
-- taken or the trigger published included; and it leaves the locks as they were too, but for one
-- case: the trigger could not be made or published, and the deletion of the lock just taken fails as
-- well, whose error is ignored, so that the lock stays.
pub handle_retro_trigger-TakenUp :
    (env : Env) (sid job_type : String) (s : Store) (r : Retro)
    → TakenUp env sid job_type (handle_retro_trigger env sid (some job_type) s r) r
unfolding handle_retro_trigger
handle_retro_trigger-TakenUp env sid job_type s r = elim (Bool-cases (valid_job_type job_type)) [
  | inl v ↦ rw v (existing-TakenUp env sid job_type r (existing (session_exists env.up sid s)))
  | inr v ↦ rw v (inr (inl (λ q. absurd (cc), refl)))
]
