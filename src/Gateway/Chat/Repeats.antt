-- ===== src/Gateway/Chat/Repeats.antt =====
-- internal/gateway/server.go: what a completed chat turn adds to its session.
use microagent.Prelude.{
  ℕ, suc, String, true, false, ◌≡◌, refl, ap, ◌∙◌, List, [], ◌∷◌, ◌++◌, if◌then◌else◌, Bool-cases,
  inl, inr,
}
use microagent.Prelude.Text.{str_eq}
use microagent.Response.{
  Response, Result, ok, failed, Store, response_key, session_responses_key, is_seen, session_ids,
  save,
}
use microagent.Response.Content.{flatten_content, flatten_parts, write_part}
use microagent.Response.Session.{ChatMsg, get_session_messages, input_messages, output_messages}
use microagent.Response.Turns.{Documents, with_turn, get_session_messages-save}
use microagent.Gateway.{Env, World, text_to_output_items}
use microagent.Gateway.Stored.{publish_turn_completed-store}
use microagent.Gateway.Reply.{ChatResponse, reply}
use microagent.Gateway.Chat.{
  OpenAiMsg, messages_to_input_items, Chat, chat_response, complete_chat,
  handle_chat_completions_non_streaming,
}

-- A message of a text, unless the text is empty.
abbrev pub spoken : String → String → List ChatMsg
spoken role text =
    if str_eq text ""
    then []
    else record { role = role; content = text; tool_calls = []; tool_call_id = "" } ∷ []

-- The messages of a request that are not empty; one without a role is the user's.
abbrev pub all_spoken : List OpenAiMsg → List ChatMsg
all_spoken [] = []
all_spoken (m ∷ ms) =
    spoken (if str_eq m.role "" then "user" else m.role) m.content ++ all_spoken ms

-- The messages with some more, unless they could not be read.
abbrev pub grown : Result (List ChatMsg) → List ChatMsg → Result (List ChatMsg)
grown (failed e) new = failed e
grown (ok ms) new = ok (ms ++ new)

with_turn-grown :
    (h : Result (List ChatMsg)) (r : Response) (ms : List ChatMsg)
    → input_messages r.input ++ output_messages r.output ≡ ms
    → with_turn h r ≡ grown h ms
with_turn-grown (failed e) r ms q = refl
with_turn-grown (ok before) r ms q = ap (λ l. ok (before ++ l)) q

input_messages-all_spoken :
    (msgs : List OpenAiMsg) → input_messages (messages_to_input_items msgs) ≡ all_spoken msgs
unfolding input_messages messages_to_input_items flatten_content
input_messages-all_spoken [] = refl
input_messages-all_spoken (m ∷ ms) =
    ap (spoken (if str_eq m.role "" then "user" else m.role) m.content ++◌)
      (input_messages-all_spoken ms)

output_messages-spoken :
    (text : String) → output_messages (text_to_output_items text) ≡ spoken "assistant" text
unfolding output_messages text_to_output_items flatten_content flatten_parts write_part
output_messages-spoken text = elim (Bool-cases (str_eq text "")) [
  | inl e ↦ rw e refl
  | inr e ↦ rw e (rw e refl)
]

-- An answered chat completion adds to its session every message of the request's array that is not
-- empty, those of a replayed history included, with the role "user" where there is none, and then
-- the answer if it is not empty; a session that could not be read before cannot be read after it
-- either. This holds when the response is saved under an id that the session does not list, the keys
-- of the session and the response can be read, and the response's JSON documents are not empty and
-- decode to what they were made from.
pub get_session_messages-handle_chat_completions_non_streaming :
    (env : Env) (c : Chat) (msgs : List OpenAiMsg) (p : ChatResponse) (w : World) (n : ℕ)
    (i o : String)
    → c.input_items ≡ messages_to_input_items msgs
    → env.saved_commands ≡ suc (suc n)
    → env.up (session_responses_key c.session_id) ≡ true
    → env.up (response_key env.response_id) ≡ true
    → Documents env.json (chat_response env c p.content) i o
    → is_seen env.response_id (session_ids c.session_id w.store) ≡ false
    → get_session_messages env.up env.json c.session_id
        (handle_chat_completions_non_streaming env c (reply p) w).1.store
      ≡ grown
          (get_session_messages env.up env.json c.session_id w.store)
          (all_spoken msgs ++ spoken "assistant" p.content)
unfolding handle_chat_completions_non_streaming complete_chat
get_session_messages-handle_chat_completions_non_streaming env c msgs p w n i o its en us ur d new =
    let r = chat_response env c p.content in
    let read = λ (s : Store). get_session_messages env.up env.json c.session_id s in
    ap read (publish_turn_completed-store env c.session_id _)
    ∙ ap (λ k. read (save env.json k r w.store).1) en
    ∙ get_session_messages-save env.up env.json n r w.store i o us ur d new
    ∙ with_turn-grown (read w.store) r (all_spoken msgs ++ spoken "assistant" p.content)
        (rw (its, input_messages-all_spoken msgs, output_messages-spoken p.content) refl)
