-- ===== src/Gateway/Told.antt =====
-- internal/gateway/responses.go: what the agent is told of a conversation, item by item.
use Prim.Native.String.{◌++◌ as str_append}
use text.Mathlib.TextLemmas.{nil-append as str_nil-append}
use microagent.Prelude.{
  String, ◌||◌, ◌≡◌, ◌≢◌, refl, sym, ap, ◌∙◌, ◌⊎◌, List, [], ◌∷◌, ◌++◌, map, append_assoc,
  Bool-cases, inl, inr, if◌then◌else◌,
}
use microagent.Prelude.Text.{str_eq}
use microagent.Response.{Response, Store}
use microagent.Response.Chain.{Chain}
use microagent.Response.Content.{ContentPart, InputItem, OutputItem, flatten_content}
use microagent.Response.Session.{ChatMsg}
use microagent.Gateway.{Env}
use microagent.Gateway.Messages.{
  input_items_to_messages, part_texts, outputs_to_messages, chain_to_messages, messages_of_output,
}

-- A message that is a text only, and the result of a call.
abbrev pub text_of : String → String → ChatMsg
text_of role text = record { role = role; content = text; tool_calls = []; tool_call_id = "" }

abbrev pub result_of : String → String → ChatMsg
result_of output call = record {
  role = "tool";
  content = output;
  tool_calls = [];
  tool_call_id = call;
}

abbrev pub told_input : InputItem → ChatMsg
told_input it =
    if str_eq it.type "function_call_output"
    then result_of it.output it.call_id
    else text_of (if str_eq it.role "" then "user" else it.role) (flatten_content it.content)

-- The text of a part, of the two types that have one.
abbrev pub part_text : ContentPart → String
part_text p = if str_eq p.type "output_text" || str_eq p.type "text" then p.text else ""

abbrev pub joined_parts : List ContentPart → String
joined_parts [] = ""
joined_parts (p ∷ ps) = str_append (part_text p) (joined_parts ps)

-- A call of a tool, its result, or a text of the assistant that is not empty.
abbrev pub told_output : OutputItem → List ChatMsg
told_output out =
    if str_eq out.type "function_call"
    then record {
      role = "assistant";
      content = "";
      tool_calls =
          record { id = out.call_id; type = "function"; name = out.name; arguments = out.args }
          ∷ [];
      tool_call_id = "";
    }
      ∷ []
    else if str_eq out.type "function_call_output"
    then result_of out.output out.call_id ∷ []
    else if str_eq out.type "message"
    then if str_eq out.role "assistant"
      then if str_eq (joined_parts out.content) ""
        then []
        else text_of "assistant" (joined_parts out.content) ∷ []
      else []
    else []

abbrev pub told_outputs : List OutputItem → List ChatMsg
told_outputs [] = []
told_outputs (out ∷ outs) = told_output out ++ told_outputs outs

-- Response by response, the inputs and then the outputs.
abbrev pub told_chain : List Response → List ChatMsg
told_chain [] = []
told_chain (r ∷ rs) = (map told_input r.input ++ told_outputs r.output) ++ told_chain rs

-- The history that a request continues: nothing, or the chain of the response that it names.
abbrev pub Continues : Env → Store → String → List ChatMsg → Type 0
Continues env s prev history =
    ((prev ≡ "") × (history ≡ []))
    ⊎ ((prev ≢ "")
        × ((rs : List Response) × Chain env.up env.json s prev rs × (history ≡ told_chain rs)))

pub input_items_to_messages-told :
    (its : List InputItem) → input_items_to_messages its ≡ map told_input its
unfolding input_items_to_messages
input_items_to_messages-told [] = refl
input_items_to_messages-told (it ∷ its) =
    elim (Bool-cases (str_eq it.type "function_call_output")) [
      | inl e ↦ rw e (ap (result_of it.output it.call_id ∷◌) (input_items_to_messages-told its))
      | inr e ↦ rw e (
          ap
            (text_of (if str_eq it.role "" then "user" else it.role) (flatten_content it.content)
              ∷◌)
            (input_items_to_messages-told its))
    ]

part_texts-joined : (ps : List ContentPart) → part_texts ps ≡ joined_parts ps
unfolding part_texts
part_texts-joined [] = refl
part_texts-joined (p ∷ ps) =
    elim (Bool-cases (str_eq p.type "output_text" || str_eq p.type "text")) [
      | inl e ↦ rw e (ap (str_append p.text) (part_texts-joined ps))
      | inr e ↦ rw e (part_texts-joined ps ∙ sym (str_nil-append (joined_parts ps)))
    ]

messages_of_output-told : (out : OutputItem) → messages_of_output out ≡ told_output out
messages_of_output-told out = rw (part_texts-joined out.content) refl

outputs_to_messages-told : (outs : List OutputItem) → outputs_to_messages outs ≡ told_outputs outs
unfolding outputs_to_messages
outputs_to_messages-told [] = refl
outputs_to_messages-told (out ∷ outs) =
    ap (messages_of_output out ++◌) (outputs_to_messages-told outs)
    ∙ ap (◌++ told_outputs outs) (messages_of_output-told out)

pub chain_to_messages-told : (rs : List Response) → chain_to_messages rs ≡ told_chain rs
unfolding chain_to_messages
chain_to_messages-told [] = refl
chain_to_messages-told (r ∷ rs) =
    rw
      (
        input_items_to_messages-told r.input,
        outputs_to_messages-told r.output,
        chain_to_messages-told rs,
      )
      (sym (append_assoc (map told_input r.input) (told_outputs r.output) (told_chain rs)))
