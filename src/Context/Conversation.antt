-- ===== src/Context/Conversation.antt =====
-- internal/context/manager.go with internal/response/store.go: the turns of a conversation.
use Prim.Native.String.{◌++◌ as str_append}
use microagent.Prelude.{String, if◌then◌else◌, List, [], ◌∷◌, ◌++◌}
use microagent.Response.{Response}
use microagent.Broker.{is_nil}
use microagent.Context.{Memory}

-- The text of recalled memories: a block with a line for each, or nothing.
abbrev pub lines_then : {S : Type 0} → List (Memory S) → String → String
lines_then [] rest = rest
lines_then (m ∷ ms) rest =
    str_append "- " (str_append m.content (str_append "\n" (lines_then ms rest)))

abbrev pub block_of : {S : Type 0} → List (Memory S) → String
block_of ms = if is_nil ms then "" else str_append "<context>\n" (lines_then ms "</context>\n\n")
