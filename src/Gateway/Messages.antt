-- ===== src/Gateway/Messages.antt =====
-- internal/gateway/responses.go: the messages for the agent, made from items and stored responses.
use Prim.Native.String.{◌++◌ as str_append}
use microagent.Prelude.{String, ◌||◌, List, [], ◌∷◌, ◌++◌, if◌then◌else◌}
use microagent.Prelude.Text.{str_eq}
use microagent.Response.{Response}
use microagent.Response.Content.{ContentPart, InputItem, OutputItem, flatten_content}
use microagent.Response.Session.{ChatMsg, tool_message, call_message}

abbrev pub said : String → String → ChatMsg
said role text = record { role = role; content = text; tool_calls = []; tool_call_id = "" }

unfoldable pub input_items_to_messages : List InputItem → List ChatMsg
input_items_to_messages [] = []
input_items_to_messages (it ∷ its) =
    let rest = input_items_to_messages its in
    if str_eq it.type "function_call_output"
    then tool_message it.output it.call_id ∷ rest
    else said (if str_eq it.role "" then "user" else it.role) (flatten_content it.content) ∷ rest

-- `text += part.Text` over the parts with a text.
unfoldable pub part_texts : List ContentPart → String
part_texts [] = ""
part_texts (p ∷ ps) =
    let rest = part_texts ps in
    if str_eq p.type "output_text" || str_eq p.type "text" then str_append p.text rest else rest

abbrev pub assistant_messages : String → List ChatMsg
assistant_messages text = if str_eq text "" then [] else said "assistant" text ∷ []

-- The messages of one output item.
abbrev pub messages_of_output : OutputItem → List ChatMsg
messages_of_output out =
    if str_eq out.type "function_call"
    then call_message out ∷ []
    else if str_eq out.type "function_call_output"
    then tool_message out.output out.call_id ∷ []
    else if str_eq out.type "message"
    then if str_eq out.role "assistant" then assistant_messages (part_texts out.content) else []
    else []

unfoldable pub outputs_to_messages : List OutputItem → List ChatMsg
outputs_to_messages [] = []
outputs_to_messages (out ∷ outs) = messages_of_output out ++ outputs_to_messages outs

unfoldable pub chain_to_messages : List Response → List ChatMsg
chain_to_messages [] = []
chain_to_messages (r ∷ rs) =
    input_items_to_messages r.input ++ (outputs_to_messages r.output ++ chain_to_messages rs)
