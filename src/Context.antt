-- ===== src/Context.antt =====
-- internal/context: what an agent is given for a request (assembler.go, manager.go). The sort of
-- the standard library is a stable one; scores are of any type with a test for "higher". The stored
-- history is the answer of the response store. The answers of the configuration store and of the
-- memory service, the decoding of the message and the success of the publication are arguments.
-- Logging and the order of the two goroutines, which share nothing, are left out.
pub mod Order
pub mod Scope
pub mod Conversation
use Prim.Native.String.{◌++◌ as str_append}
use microagent.Prelude.{
  ℕ, String, Bool, true, false, ◌&&◌, ◌||◌, not, Option, none, some, List, [], ◌∷◌, ◌++◌,
  if◌then◌else◌,
}
use microagent.Prelude.Int.{ℤ}
use microagent.Prelude.Text.{str_eq}
use microagent.Response.{Result, ok, failed}
use microagent.Response.Session.{ChatMsg}

pub record Memory (S : Type 0) : Type 0 where
  pub id : String
  pub content : String
  pub score : S
  pub tags : List String

-- `memoryclient.RecallRequest`, as far as the manager fills it.
pub record RecallRequest : Type 0 where
  pub query : String
  pub limit : ℤ
  pub speaker_id : String

pub record MemoryConfig : Type 0 where
  pub recall_default_speaker_scope : String
  pub primary_user_id : String

pub record ChatRequestPayload : Type 0 where
  pub session_id : String
  pub speaker_id : String
  pub messages : List ChatMsg

-- `ContextAssembledPayload` with the stream and the correlation id of its message.
pub record ContextAssembled : Type 0 where
  pub stream : String
  pub correlation_id : String
  pub session_id : String
  pub speaker_id : String
  pub messages : List ChatMsg
  pub target_agent : String
  pub reply_stream : String

abbrev pub memory_lines : {S : Type 0} → List (Memory S) → String
memory_lines [] = "</context>\n\n"
memory_lines (m ∷ ms) = str_append "- " (str_append m.content (str_append "\n" (memory_lines ms)))

unfoldable pub format_context_block : {S : Type 0} → List (Memory S) → String
format_context_block [] = ""
format_context_block (m ∷ ms) = str_append "<context>\n" (memory_lines (m ∷ ms))

abbrev pub system_message : String → ChatMsg
system_message prompt = record {
  role = "system";
  content = prompt;
  tool_calls = [];
  tool_call_id = "";
}

module _ {S : Type 0} (higher : S → S → Bool) where
  -- `sort.SliceStable`: a memory goes behind those that are higher, and before the rest.
  unfoldable pub insert_memory : Memory S → List (Memory S) → List (Memory S)
  insert_memory m [] = m ∷ []
  insert_memory m (n ∷ ns) = if higher n.score m.score then n ∷ insert_memory m ns else m ∷ n ∷ ns

  unfoldable pub sort_memories : List (Memory S) → List (Memory S)
  sort_memories [] = []
  sort_memories (m ∷ ms) = insert_memory m (sort_memories ms)

  abbrev pub decorate : List (Memory S) → ChatMsg → ChatMsg
  decorate memories user = record user {
    content = str_append (format_context_block (sort_memories memories)) user.content;
  }

  unfoldable pub assemble : String → List (Memory S) → List ChatMsg → ChatMsg → List ChatMsg
  assemble prompt memories history user =
      system_message prompt ∷ (history ++ (decorate memories user ∷ []))

abbrev pub is_named : String → Bool
is_named speaker = not (str_eq speaker "") && not (str_eq speaker "unknown")

-- The recall of a request, `none` when it is skipped.
unfoldable pub recall_request : MemoryConfig → ℤ → String → String → Option RecallRequest
recall_request cfg limit query speaker =
    let ask = λ (id : String). some (record { query = query; limit = limit; speaker_id = id }) in
    if str_eq cfg.recall_default_speaker_scope "primary"
    then (if is_named speaker
        then ask speaker
        else if not (str_eq cfg.primary_user_id "")
        then ask cfg.primary_user_id
        else ask "")
    else if str_eq cfg.recall_default_speaker_scope "explicit"
    then (if str_eq speaker "" || str_eq speaker "unknown" then none else ask speaker)
    else ask ""

-- The messages before the last one and the last, `none` when there is none.
unfoldable pub split_last : List ChatMsg → Option (List ChatMsg × ChatMsg)
split_last [] = none
split_last (x ∷ []) = some ([], x)
split_last (x ∷ y ∷ xs) = elim (split_last (y ∷ xs)) [
  | none ↦ none
  | some (init, z) ↦ some (x ∷ init, z)
]

-- The stored history, that of the request if nothing is stored, or none on an error.
abbrev pub choose_history : Result (List ChatMsg) → List ChatMsg → List ChatMsg
choose_history (failed e) own = []
choose_history (ok []) own = own
choose_history (ok (m ∷ ms)) own = m ∷ ms

-- `handleRequest` ends without a publication, by a panic that is recovered, or with one.
pub data Handled : Type 0 where
  undecodable recovered_panic publish_failed : Handled
  published : ContextAssembled → Handled

-- What the recall brings: nothing if it is skipped or fails.
abbrev pub recalled :
    {S : Type 0}
    → (RecallRequest → Result (List (Memory S)))
    → Option RecallRequest
    → List (Memory S)
recalled recall none = []
recalled recall (some r) = elim (recall r) [ failed e ↦ [] | ok ms ↦ ms ]

module _ {S : Type 0} (higher : S → S → Bool) (prompt : String) (cfg : MemoryConfig) (limit : ℤ)
    (recall : RecallRequest → Result (List (Memory S))) where
  abbrev pub context_of :
      Result (List ChatMsg) → ChatRequestPayload → List ChatMsg → ChatMsg → List ChatMsg
  context_of stored p own user =
      assemble higher prompt (recalled recall (recall_request cfg limit user.content p.speaker_id))
        (choose_history stored own) user

  unfoldable pub handle_request :
      Bool → Result (List ChatMsg) → String → String → Option ChatRequestPayload → Handled
  handle_request publish_ok stored correlation_id reply_stream none = undecodable
  handle_request publish_ok stored correlation_id reply_stream (some p) =
      elim (split_last p.messages) [
        | none ↦ recovered_panic
        | some (own, user) ↦
            if publish_ok
            then published (record {
              stream = "stream:agent:main-agent:requests";
              correlation_id = correlation_id;
              session_id = p.session_id;
              speaker_id = p.speaker_id;
              messages = context_of stored p own user;
              target_agent = "main-agent";
              reply_stream = reply_stream;
            })
            else publish_failed
      ]

-- The content of the last message of the assistant, empty if there is none.
unfoldable pub last_assistant : String → List ChatMsg → String
last_assistant found [] = found
last_assistant found (m ∷ ms) =
    last_assistant (if str_eq m.role "assistant" then m.content else found) ms

-- `preWarmMemories`: the recall that it makes.
unfoldable pub pre_warm_memories : ℤ → Result (List ChatMsg) → Option RecallRequest
pre_warm_memories limit (failed e) = none
pre_warm_memories limit (ok history) =
    let query = last_assistant "" history in
    if str_eq query ""
    then none
    else some (record { query = query; limit = limit; speaker_id = "" })
