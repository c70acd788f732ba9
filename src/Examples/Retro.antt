-- ===== src/Examples/Retro.antt =====
-- The retrospective jobs and their triggers on small inputs.
use microagent.Examples.Agents.{asked}
use microagent.Prelude.{true, false, ◌≡◌, refl, none, some, [], ◌∷◌}
use microagent.Prelude.Text.{str_eq}
use microagent.Response.{ok, lookup, insert, remove}
use microagent.Retro.Tags.{ExtractedMemory}
use microagent.Retro.Jobs.{JobEnv, JobState, answered}
use microagent.Retro.Trigger.{
  Trigger, new_trigger, on_session_event, fire_timer, finish_callback, without,
}
use microagent.Retro.Trigger.Debounce.{Calm, event, of_session, on_session_event_one}

abbrev a_memory : ExtractedMemory
a_memory = record {
  content = "likes tea";
  tags = "tea" ∷ "corrections" ∷ "tea" ∷ [];
  memory_type = "";
  confidence = record { in_range = true; two_decimals = "0.90" };
  is_correction = false;
  speaker_id = "ann";
  fact_type = "";
  entities = [];
}

abbrev job_env : JobEnv
job_env = record {
  up = λ k. true;
  history = ok asked;
  speaker = "ann";
  slot_granted = true;
  execution = λ prompt. answered "[]";
  retain = λ req. true;
  recall = λ q. none;
  min_history_turns = 1;
  reaches_threshold = λ inter union. false;
  extraction_prompt = "";
  skill_prompt = "";
  decode_memories = λ doc. some (a_memory ∷ []);
  decode_skills = λ doc. some [];
  contains = λ s t. false;
  trim = λ s. s;
  equal_fold = str_eq;
  words = λ s. [];
}

abbrev no_work : JobState
no_work = record { checkpoints = []; retained = []; slots = [] }

abbrev after_one : Trigger
after_one = on_session_event "s" new_trigger

on_session_event_one_example :
    of_session "s" (on_session_event "s" after_one).armed ≡ after_one.next_timer ∷ []
on_session_event_one_example = on_session_event_one after_one "s" (event Calm.start "s")

-- An event comes while the activation runs, and one after it has returned: two timers run.
abbrev overlapping : Trigger
overlapping =
    on_session_event "s" (finish_callback 0 "s" (on_session_event "s" (fire_timer 0 "s" after_one)))

two_timers_test : of_session "s" overlapping.armed ≡ 1 ∷ 2 ∷ []
unfolding on_session_event finish_callback fire_timer without lookup insert remove
two_timers_test = refl
