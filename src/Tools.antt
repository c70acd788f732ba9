-- ===== src/Tools.antt =====
-- internal/tools/tool.go: the registry of the tools that the main agent can call. The registry's
-- map and its order are one list, in the order of registration. A tool is given by its name, its
-- schema as a text, and what its call comes to; `json_error` is a JSON object with an error.
pub mod Visible
use Prim.Native.String.{◌++◌ as str_append}
use text.Mathlib.Text.{starts_with}
use microagent.Prelude.{
  String, Bool, true, false, not, Option, none, some, List, [], ◌∷◌, ◌++◌, map, if◌then◌else◌,
}
use microagent.Prelude.Text.{str_eq}
use microagent.Response.{is_seen}

pub data Invoked : Type 0 where
  returned fails : String → Invoked
  panics : Invoked

pub record Tool : Type 0 where
  pub name : String
  pub schema : String
  pub invoke : String → Invoked

pub data Outcome : Type 0 where
  ok error panic gated : Outcome

abbrev pub Registry : Type 0
Registry = List Tool

unfoldable pub find_tool : String → Registry → Option Tool
find_tool name [] = none
find_tool name (t ∷ ts) = if str_eq t.name name then some t else find_tool name ts

unfoldable pub has : String → Registry → Bool
has name r = elim (find_tool name r) [ none ↦ false | some t ↦ true ]

-- `register`, `none` for no error.
unfoldable pub add_tool : Tool → Registry → Option String × Registry
add_tool t r =
    if has t.name r
    then (some (str_append "tool already registered: " t.name), r)
    else (none, r ++ (t ∷ []))

-- The names that are kept for tools of MCP servers.
abbrev pub is_mcp_name : String → Bool
is_mcp_name name = starts_with "mcp__" name

unfoldable pub register : (String → String) → Tool → Registry → Option String × Registry
register quote t r =
    if is_mcp_name t.name
    then (
      some (
          str_append "tool name "
            (str_append (quote t.name) " uses reserved mcp__ prefix; use RegisterMCP")),
      r,
    )
    else add_tool t r

unfoldable pub register_mcp : (String → String) → Tool → Registry → Option String × Registry
register_mcp quote t r =
    if not (is_mcp_name t.name)
    then (
      some (str_append "MCP tool name " (str_append (quote t.name) " must start with mcp__")),
      r,
    )
    else add_tool t r

-- The tools of two lists of names, in the order of registration.
unfoldable pub schemas_for : List String → List String → Registry → List Tool
schemas_for base allowed [] = []
schemas_for base allowed (t ∷ ts) =
    let rest = schemas_for base allowed ts in
    if is_seen t.name (base ++ allowed) then t ∷ rest else rest

-- What `Invoke` makes of a call.
abbrev pub answer_of : (String → String) → Invoked → String × Outcome
answer_of json_error (returned out) = (out, ok)
answer_of json_error (fails e) = (json_error e, error)
answer_of json_error panics = (json_error "tool panicked", panic)

abbrev pub invoke_found : (String → String) → String → String → Option Tool → String × Outcome
invoke_found json_error name args none = (json_error (str_append "unknown tool: " name), error)
invoke_found json_error name args (some t) = answer_of json_error (t.invoke args)

unfoldable pub invoke_tool : (String → String) → String → String → Registry → String × Outcome
invoke_tool json_error name args r = invoke_found json_error name args (find_tool name r)

-- `visibleSet` of cmd/main-agent/main.go.
unfoldable pub registered : Registry → List String → List String
registered r [] = []
registered r (n ∷ ns) = let rest = registered r ns in if has n r then n ∷ rest else rest

unfoldable pub visible_set : Registry → List String → List String → List String
visible_set r base allowed = registered r base ++ registered r allowed
