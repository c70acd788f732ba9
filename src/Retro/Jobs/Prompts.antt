-- ===== src/Retro/Jobs/Prompts.antt =====
-- internal/retro/job.go: the prompts of the jobs, the fences around an answer, and the count of the
-- processed messages.
use Prim.Native.String.{◌++◌ as str_append, slice, len}
use text.Mathlib.Text.{starts_with}
use microagent.Prelude.{
  ℕ, suc, ◌-◌, ltb, leb, String, Bool, ◌&&◌, ◌||◌, List, [], ◌∷◌, length, if◌then◌else◌,
}
use microagent.Prelude.Text.{str_eq}
use microagent.Response.Session.{ChatMsg}
use microagent.Gateway.Messages.{said}
use microagent.Retro.Jobs.State.{JobEnv}

-- `strings.TrimPrefix` and `strings.TrimSuffix`.
abbrev pub trim_prefix : String → String → String
trim_prefix s p = if starts_with p s then slice s (len p) (len s) else s

abbrev pub trim_suffix : String → String → String
trim_suffix s p =
    if leb (len p) (len s) && str_eq (slice s (len s - len p) (len s)) p
    then slice s 0 (len s - len p)
    else s

abbrev pub fence : String
fence = "```"

unfoldable pub trim_json_fences : (String → String) → String → String
trim_json_fences trim s =
    trim (trim_suffix (trim_prefix (trim_prefix (trim s) (str_append fence "json")) fence) fence)

-- `[role]: content` for each message.
unfoldable pub conversation : List ChatMsg → String
conversation [] = ""
conversation (m ∷ ms) = str_append "[" (
    str_append m.role (str_append "]: " (str_append m.content (str_append "\n" (conversation ms)))))

unfoldable pub build_memory_extraction_prompt : JobEnv → List ChatMsg → List ChatMsg
build_memory_extraction_prompt env history =
    said "system" env.extraction_prompt
    ∷ said "user" (
        str_append "Analyze this conversation for memorable information:\n\n" (
          str_append
            (if str_eq env.speaker ""
              then ""
              else str_append "Speaker ID for this conversation: " (str_append env.speaker "\n\n"))
            (conversation history)))
    ∷ []

unfoldable pub build_skill_creation_prompt : JobEnv → List ChatMsg → List ChatMsg
build_skill_creation_prompt env history =
    said "system" env.skill_prompt
    ∷ said "user" (
        str_append "Analyze this conversation for reusable problem-solving patterns:\n\n"
          (conversation history))
    ∷ []

unfoldable pub count_markers : (String → String → Bool) → List String → ℕ
count_markers contains [] = 0
count_markers contains (tok ∷ toks) =
    let rest = count_markers contains toks in
    if contains tok "[user]:" || contains tok "[assistant]:" then suc rest else rest

-- An empty log has no markers either.
unfoldable pub count_processed_from_progress :
    (String → String → Bool) → List String → List ChatMsg → ℕ
count_processed_from_progress contains log history =
    let markers = count_markers contains log in
    if ltb (length history) markers then length history else markers
