-- ===== src/MainAgent/Skill.antt =====
-- The active skill of a session and what it gates: cmd/main-agent/main.go and
-- internal/sessionskill.
use Prim.Native.String.{◌++◌ as str_append}
use microagent.Prelude.{
  String, Bool, true, false, not, ◌&&◌, ◌||◌, Option, none, some, List, [], ◌∷◌, if◌then◌else◌,
}
use microagent.Prelude.Text.{str_eq}
use microagent.Broker.Llm.{ToolCall}
use microagent.Response.{is_seen, Map, lookup, insert, remove, text_or_empty}
use microagent.Response.Session.{ChatMsg}
use microagent.Tools.{Outcome, ok, gated, visible_set, invoke_tool}
use microagent.MainAgent.State.{Manifest, Deps, Turn}

unfoldable pub get_skill : String → List Manifest → Option Manifest
get_skill name [] = none
get_skill name (m ∷ ms) = if str_eq m.name name then some m else get_skill name ms

abbrev pub allowed_of : Option Manifest → List String
allowed_of none = []
allowed_of (some m) = m.allowed_tools

abbrev pub visible : Deps → Option Manifest → List String
visible d active = visible_set d.registry d.base_tools (allowed_of active)

-- `sessionskill.Get` and `Set`; `none` for an error.
unfoldable pub get_active : Deps → String → Map String → Option String
get_active d sid m =
    if str_eq sid ""
    then none
    else if d.reachable
    then some (text_or_empty (lookup sid m))
    else none

unfoldable pub set_active : Deps → String → String → Map String → Map String
set_active d sid name m =
    if str_eq sid ""
    then m
    else if not d.reachable
    then m
    else if str_eq name ""
    then remove sid m
    else insert sid name m

abbrev pub resolved :
    Deps → String → String → Map String → Option Manifest → String × Option Manifest × Map String
resolved d sid name m (some skill) = (name, some skill, m)
resolved d sid name m none = ("", none, set_active d sid "" m)

-- `resolveActiveSkill`: a skill that is not in the store any more is cleared.
unfoldable pub resolve_active_skill :
    Deps → String → Map String → String × Option Manifest × Map String
resolve_active_skill d sid m = elim (get_active d sid m) [
  | none ↦ ("", none, m)
  | some name ↦
      if str_eq name "" then ("", none, m) else resolved d sid name m (get_skill name d.skills)
]

-- A decoding error and `null` are both `none`.
unfoldable pub inject_session_id : Deps → String → String → String
inject_session_id d args sid = elim (d.decode_object args) [
  | none ↦ args
  | some m ↦ elim (d.encode_object (insert "session_id" (d.quote sid) m)) [
    | none ↦ args
    | some doc ↦ doc
  ]
]

abbrev pub is_session_scoped : String → Bool
is_session_scoped name = str_eq name "run_skill_script" || str_eq name "bash"

abbrev pub gated_envelope : String → String
gated_envelope name =
    str_append "{\"error\":\"tool not available under active skill: " (str_append name "\"}")

unfoldable pub invoke_or_gate : Deps → ToolCall → List String → String → String × Outcome
invoke_or_gate d call names sid =
    if not (is_seen call.name names)
    then (gated_envelope call.name, gated)
    else invoke_tool d.json_error call.name
        (if is_session_scoped call.name
          then inject_session_id d call.arguments sid
          else call.arguments)
        d.registry

unfoldable pub parse_read_skill_name : Deps → String → Option String
parse_read_skill_name d args = elim (d.name_field args) [
  | none ↦ none
  | some raw ↦ let name = d.trim_space raw in if str_eq name "" then none else some name
]

abbrev pub is_ok : Outcome → Bool
is_ok ok = true
is_ok _ = false

abbrev pub switch_skill : Deps → String → String → Option Manifest → Turn → Turn
switch_skill d sid name none t = t
switch_skill d sid name (some skill) t = if str_eq name t.active_name then t else record t {
  active_name = name;
  active_skill = some skill;
  active_skills = set_active d sid name t.active_skills;
}

-- A skill that is read becomes the active one.
unfoldable pub activate : Deps → String → ToolCall → Outcome → Turn → Turn
activate d sid call outcome t =
    if str_eq call.name "read_skill" && is_ok outcome
    then elim (parse_read_skill_name d call.arguments) [
      | none ↦ t
      | some name ↦ switch_skill d sid name (get_skill name d.skills) t
    ]
    else t

-- The block that lists the skills.
unfoldable pub skill_lines : List Manifest → String
skill_lines [] = "</available_skills>"
skill_lines (m ∷ ms) = str_append "- " (
    str_append m.name
      (str_append ": " (str_append m.description (str_append "\n" (skill_lines ms)))))

unfoldable pub inject_skill_manifest : List ChatMsg → List Manifest → List ChatMsg
inject_skill_manifest messages [] = messages
inject_skill_manifest [] (m ∷ ms) = []
inject_skill_manifest (first ∷ rest) (m ∷ ms) =
    if str_eq first.role "system"
    then record first {
      content =
          str_append first.content (str_append "\n\n<available_skills>\n" (skill_lines (m ∷ ms)));
    }
      ∷ rest
    else first ∷ rest
