-- ===== src/Retro/Jobs/Effects.antt =====
-- internal/retro/job.go: what a run of a job leaves of the checkpoints and of its slot.
use microagent.Prelude.{
  ℕ, ◌≤◌, ◌<◌, String, true, false, ◌≡◌, ◌⊎◌, Option, none, some, List, [], ◌∷◌, ◌++◌, length,
}
use microagent.Response.{Failure, ok, failed}
use microagent.Response.Session.{ChatMsg}
use microagent.Retro.{save_checkpoint}
use microagent.Retro.Jobs.{taken, returned, JobEnd, job_done, job_failed, JobEnv, JobState, Job}

-- The checkpoints are as before, or the job's is moved within the history.
abbrev pub Moved : JobEnv → Job → String → ℕ → ℕ → JobState → JobState → Type 0
Moved env job sid start size st after =
    (after.checkpoints ≡ st.checkpoints)
    ⊎ ((turns : ℕ) × (start ≤ turns)
        × (turns ≤ size)
        × (after.checkpoints ≡ save_checkpoint env.up sid job.job_type turns st.checkpoints))

-- Why a job that needs `least` messages does not run: the history is missing, too short or all
-- processed, or no slot is to be had.
abbrev pub Skips : JobEnv → ℕ → ℕ → JobEnd → Type 0
Skips env least start e =
    ((f : Failure) × (env.history ≡ failed f) × (e ≡ job_failed))
    ⊎ ((history : List ChatMsg) × (env.history ≡ ok history)
        × (((e ≡ job_done) × ((length history < least) ⊎ (length history ≤ start)))
            ⊎ ((e ≡ job_failed) × (env.slot_granted ≡ false))))

pub data Effect (env : JobEnv) (job : Job) (sid : String) (least start : ℕ) (st : JobState)
    : JobEnd → JobState → Type 0 where
  -- The job does not ask for a slot or does not get one.
  not_run : {e : JobEnd} → Skips env least start e → Effect env job sid least start st e st
  -- It takes a slot once and returns it.
  run :
      {e : JobEnd} {after : JobState} {history : List ChatMsg}
      → env.history ≡ ok history
      → least ≤ length history
      → start < length history
      → env.slot_granted ≡ true
      → after.slots ≡ st.slots ++ (taken ∷ returned ∷ [])
      → Moved env job sid start (length history) st after
      → Effect env job sid least start st e after

-- The same slots and checkpoints.
abbrev Alike : JobState → JobState → Type 0
Alike a b = (a.slots ≡ b.slots) × (a.checkpoints ≡ b.checkpoints)

-- Storing an answer leaves slots and checkpoints alone.
abbrev StoredFrom : JobState → Option JobState → Type 0
StoredFrom st none = Unit
StoredFrom st (some after) = Alike after st
