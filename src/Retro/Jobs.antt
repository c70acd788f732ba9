-- ===== src/Retro/Jobs.antt =====
-- internal/retro/job.go: a run of the job that extracts memories and of the one that creates
-- skills. `JobEnv` is what a run finds: the session, the slot, the model's answer, the memory
-- service, and the functions of Go's library that the job calls.
pub mod Effects
mod State
mod Prompts
unfoldable pub use State.*
unfoldable pub use Prompts.*
use Prim.Native.String.{◌++◌ as str_append, slice, len}
use text.Mathlib.Text.{starts_with}
use microagent.Prelude.{
  ℕ, zero, suc, ◌+◌, ◌-◌, ◌==◌, ltb, leb, String, Bool, true, false, not, ◌&&◌, ◌||◌, Option, none,
  some, List, [], ◌∷◌, ◌++◌, length, drop, if◌then◌else◌,
}
use microagent.Prelude.Text.{str_eq}
use microagent.Response.{Result, ok, failed, is_seen}
use microagent.Response.Session.{ChatMsg}
use microagent.Gateway.Messages.{said}
use microagent.Retro.{Checkpoints, save_checkpoint}
use microagent.Retro.Tags.{
  ExtractedMemory, ExtractedSkill, RetainRequest, build_extract_retain_request,
  build_skill_retain_request,
}

-- The loop over the memories; one without a content, or that is not retained, is passed over.
unfoldable pub store_memories : JobEnv → List ExtractedMemory → JobState → JobState
store_memories env [] st = st
store_memories env (mem ∷ mems) st =
    let req = build_extract_retain_request env.equal_fold env.trim mem in
    let passed = store_memories env mems st in
    let kept = store_memories env mems (record st { retained = st.retained ++ (req ∷ []) }) in
    if str_eq (env.trim mem.content) "" || not (env.retain req) then passed else kept

-- `toWordSet`
unfoldable pub word_set : List String → List String
word_set [] = []
word_set (w ∷ ws) =
    let rest = word_set ws in if str_eq w "" || is_seen w rest then rest else w ∷ rest

unfoldable pub count_common : List String → List String → ℕ
count_common [] bs = 0
count_common (a ∷ as_words) bs =
    let rest = count_common as_words bs in if is_seen a bs then suc rest else rest

-- `jaccard(a, b) >= threshold`, for a threshold above 0.
unfoldable pub is_similar : JobEnv → String → String → Bool
is_similar env a b =
    let xs = word_set (env.words a) in
    let ys = word_set (env.words b) in
    let inter = count_common xs ys in
    if length xs == 0 || length ys == 0
    then false
    else env.reaches_threshold inter (length xs + length ys - inter)

unfoldable pub is_duplicate_skill : JobEnv → ExtractedSkill → List String → Bool
is_duplicate_skill env skill [] = false
is_duplicate_skill env skill (m ∷ ms) =
    is_similar env skill.problem_class m || is_duplicate_skill env skill ms

abbrev pub is_known : JobEnv → ExtractedSkill → Option (List String) → Bool
is_known env skill none = false
is_known env skill (some existing) = is_duplicate_skill env skill existing

unfoldable pub store_skills : JobEnv → List ExtractedSkill → JobState → JobState
store_skills env [] st = st
store_skills env (skill ∷ skills) st =
    let req = build_skill_retain_request env.trim skill env.speaker in
    let passed = store_skills env skills st in
    let kept = store_skills env skills (record st { retained = st.retained ++ (req ∷ []) }) in
    if is_known env skill (env.recall skill.problem_class)
      || (str_eq req.content "" || not (env.retain req))
    then passed
    else kept

-- What differs between the two jobs.
pub record Job : Type 0 where
  pub job_type : String
  -- Whether a history of a length is long enough.
  pub enough : ℕ → Bool
  pub prompt : List ChatMsg → List ChatMsg
  -- The answer parsed and stored, `none` when it does not parse.
  pub store : String → JobState → Option JobState

abbrev pub use_slot : SlotUse → JobState → JobState
use_slot u st = record st { slots = st.slots ++ (u ∷ []) }

abbrev pub set_checkpoint : JobEnv → Job → String → ℕ → JobState → JobState
set_checkpoint env job sid turns st = record st {
  checkpoints = save_checkpoint env.up sid job.job_type turns st.checkpoints;
}

-- A parsed answer moves the checkpoint to the end of the history.
abbrev pub stored : JobEnv → Job → String → ℕ → JobState → Option JobState → JobState
stored env job sid turns before none = before
stored env job sid turns before (some after) = set_checkpoint env job sid turns after

unfoldable pub after_execution :
    JobEnv → Job → String → ℕ → List ChatMsg → Execution → JobState → JobEnd × JobState
after_execution env job sid start history (preempted_run log) st = (
  job_preempted,
  set_checkpoint env job sid
      (start + count_processed_from_progress env.contains log (drop start history)) st,
)
after_execution env job sid start history failed_run st = (job_failed, st)
after_execution env job sid start history (answered text) st =
    (job_done, stored env job sid (length history) st (job.store text st))

-- The deferred `ReleaseSlot`.
abbrev pub releasing : JobEnd × JobState → JobEnd × JobState
releasing (e, st) = (e, use_slot returned st)

unfoldable pub run_on : JobEnv → Job → String → ℕ → List ChatMsg → JobState → JobEnd × JobState
run_on env job sid start history st =
    if not (job.enough (length history)) || leb (length history) start
    then (job_done, st)
    else if not env.slot_granted
    then (job_failed, st)
    else releasing (
        after_execution env job sid start history (env.execution (job.prompt (drop start history)))
          (use_slot taken st))

abbrev pub start_of : Option ℕ → ℕ
start_of none = 0
start_of (some turns) = turns

unfoldable pub run_job : JobEnv → Job → String → Option ℕ → JobState → JobEnd × JobState
run_job env job sid cp st = elim env.history [
  | failed e ↦ (job_failed, st)
  | ok history ↦ run_on env job sid (start_of cp) history st
]

abbrev pub parsed_memories : JobEnv → Option (List ExtractedMemory) → JobState → Option JobState
parsed_memories env none st = none
parsed_memories env (some mems) st = some (store_memories env mems st)

abbrev pub parsed_skills : JobEnv → Option (List ExtractedSkill) → JobState → Option JobState
parsed_skills env none st = none
parsed_skills env (some skills) st = some (store_skills env skills st)

-- `MemoryExtractionJob.Run`
abbrev pub memory_extraction : JobEnv → Job
memory_extraction env = record {
  job_type = "memory_extraction";
  enough = λ n. not (n == 0);
  prompt = build_memory_extraction_prompt env;
  store = λ text st. parsed_memories env (env.decode_memories (trim_json_fences env.trim text)) st;
}

-- `SkillCreationJob.Run`
abbrev pub skill_creation : JobEnv → Job
skill_creation env = record {
  job_type = "skill_creation";
  enough = λ n. leb env.min_history_turns n;
  prompt = build_skill_creation_prompt env;
  store = λ text st. parsed_skills env (env.decode_skills (trim_json_fences env.trim text)) st;
}
