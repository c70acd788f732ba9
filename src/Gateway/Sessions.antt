-- ===== src/Gateway/Sessions.antt =====
-- The session handlers of internal/gateway/server.go.
pub mod Gone
use Prim.Native.String.{◌++◌ as str_append}
use microagent.Prelude.{
  ℕ, String, Bool, true, false, not, ◌||◌, Option, none, some, List, [], ◌∷◌, ◌++◌, if◌then◌else◌,
}
use microagent.Prelude.Text.{str_eq}
use microagent.Response.{Store, Failure, Result, ok, failed, is_seen}
use microagent.Response.Session.{
  ChatMsg, session_exists, get_session_messages, get_session_speaker_id, delete_session,
}
use microagent.Retro.{lock_key, acquire_lock, release_lock}
use microagent.Gateway.{Env, HandlerErr, invalid_request, internal_error}

abbrev pub not_found : String → HandlerErr
not_found msg = record { status = 404; code = "not_found"; msg = msg }

pub data SessionAnswer : Type 0 where
  session_error : HandlerErr → SessionAnswer
  -- The messages and the last speaker, empty when it is left out of the answer.
  session_read : (session_id : String) → List ChatMsg → (last_speaker_id : String) → SessionAnswer
  session_deleted : SessionAnswer

-- The answer to a session that does not exist, or whose existence is not known.
abbrev pub existing : Result Bool → Option HandlerErr
existing (failed e) = some (internal_error "Failed to check session")
existing (ok false) = some (not_found "Session not found")
existing (ok true) = none

abbrev pub messages_read : Result (List ChatMsg) → String → String → SessionAnswer
messages_read (failed e) sid speaker = session_error (internal_error "Failed to read session")
messages_read (ok ms) sid speaker = session_read sid ms speaker

unfoldable pub handle_get_session : Env → String → Store → SessionAnswer
handle_get_session env sid s = elim (existing (session_exists env.up sid s)) [
  | some e ↦ session_error e
  | none ↦
      messages_read (get_session_messages env.up env.json sid s) sid
        (get_session_speaker_id env.up sid s)
]

abbrev pub deleted : Option Failure × Store → SessionAnswer × Store
deleted (none, s) = (session_deleted, s)
deleted (some e, s) = (session_error (internal_error "Failed to delete session"), s)

-- `whole` and `n` are those of `delete_session`.
unfoldable pub handle_delete_session : Env → Bool → ℕ → String → Store → SessionAnswer × Store
handle_delete_session env whole n sid s = elim (existing (session_exists env.up sid s)) [
  | some e ↦ (session_error e, s)
  | none ↦ deleted (delete_session env.up whole n sid s)
]

-- `validJobTypes`, whose values are the same texts.
abbrev pub valid_job_type : String → Bool
valid_job_type t =
    str_eq t "memory_extraction" || (str_eq t "skill_creation" || str_eq t "curation")

-- The locks that are held and the triggers that are published, by session and job type.
pub record Retro : Type 0 where
  pub locks : List String
  pub triggers : List (String × String)

pub data RetroAnswer : Type 0 where
  retro_error : HandlerErr → RetroAnswer
  job_running : RetroAnswer
  accepted : RetroAnswer

abbrev pub publish_trigger : Env → String → String → Retro → RetroAnswer × Retro
publish_trigger env sid job_type r =
    if not env.message_made
    then (
      retro_error (internal_error "Failed to create trigger message"),
      record r { locks = release_lock env.unlocked sid job_type r.locks },
    )
    else if not env.published
    then (
      retro_error (internal_error "Failed to publish trigger"),
      record r { locks = release_lock env.unlocked sid job_type r.locks },
    )
    else (accepted, record r { triggers = r.triggers ++ ((sid, job_type) ∷ []) })

abbrev pub with_lock :
    Env → String → String → Retro → Result Bool × List String → RetroAnswer × Retro
with_lock env sid job_type r (failed e, locks) =
    (retro_error (internal_error "Failed to acquire lock"), record r { locks = locks })
with_lock env sid job_type r (ok false, locks) = (job_running, record r { locks = locks })
with_lock env sid job_type r (ok true, locks) =
    publish_trigger env sid job_type (record r { locks = locks })

-- The body is the job type of the request, `none` when it does not decode.
unfoldable pub handle_retro_trigger :
    Env → String → Option String → Store → Retro → RetroAnswer × Retro
handle_retro_trigger env sid none s r =
    (retro_error (invalid_request "Failed to parse request body"), r)
handle_retro_trigger env sid (some job_type) s r =
    if not (valid_job_type job_type)
    then (
      retro_error (record {
        status = 400;
        code = "invalid_job_type";
        msg =
            str_append "Invalid job_type: "
              (str_append job_type ". Valid types: memory_extraction, skill_creation, curation");
      }),
      r,
    )
    else elim (existing (session_exists env.up sid s)) [
      | some e ↦ (retro_error e, r)
      | none ↦ with_lock env sid job_type r (acquire_lock env.up sid job_type r.locks)
    ]
