-- ===== src/Retro/Jobs/State.antt =====
-- internal/retro/job.go: what a job finds around it, changes, and comes to.
use microagent.Prelude.{ℕ, String, Bool, Option, List}
use microagent.Response.{Result}
use microagent.Response.Session.{ChatMsg}
use microagent.Retro.{Checkpoints}
use microagent.Retro.Tags.{ExtractedMemory, ExtractedSkill, RetainRequest}

pub data Execution : Type 0 where
  -- The progress log of a run that is preempted.
  preempted_run : List String → Execution
  failed_run : Execution
  answered : String → Execution

pub data SlotUse : Type 0 where
  taken returned : SlotUse

pub data JobEnd : Type 0 where
  job_done job_failed job_preempted : JobEnd

pub record JobEnv : Type 0 where
  pub up : String → Bool
  pub history : Result (List ChatMsg)
  pub speaker : String
  pub slot_granted : Bool
  pub execution : List ChatMsg → Execution
  pub retain : RetainRequest → Bool
  -- The contents of the memories that a recall gives, `none` for an error.
  pub recall : String → Option (List String)
  pub min_history_turns : ℕ
  -- Whether a share of common words reaches the threshold, by its two numbers.
  pub reaches_threshold : ℕ → ℕ → Bool
  pub extraction_prompt : String
  pub skill_prompt : String
  pub decode_memories : String → Option (List ExtractedMemory)
  pub decode_skills : String → Option (List ExtractedSkill)
  pub contains : String → String → Bool
  pub trim : String → String
  pub equal_fold : String → String → Bool
  -- The words of a text, in lower case, stripped of what is no letter or digit.
  pub words : String → List String

pub record JobState : Type 0 where
  pub checkpoints : Checkpoints
  pub retained : List RetainRequest
  pub slots : List SlotUse
