-- ===== src/Examples/Context.antt =====
-- internal/context on a small conversation.
use Prim.Native.String.{◌++◌ as str_append}
use microagent.Prelude.{ℕ, String, Bool, true, ◌≡◌, refl, ltb, some, List, [], ◌∷◌, ◌++◌}
use microagent.Prelude.Int.{pos}
use microagent.Response.{Response, Result, ok, Codec}
use microagent.Response.Content.{InputItem, plain}
use microagent.Response.Session.{ChatMsg}
use microagent.Context.{
  Memory, RecallRequest, MemoryConfig, ChatRequestPayload, sort_memories, insert_memory,
  format_context_block,
}

abbrev higher : ℕ → ℕ → Bool
higher a b = ltb b a

abbrev memory : String → ℕ → Memory ℕ
memory content score = record { id = content; content = content; score = score; tags = [] }

abbrev memories : List (Memory ℕ)
memories = memory "tea" 3 ∷ memory "cat" 7 ∷ memory "sea" 3 ∷ []

sort_test : sort_memories higher memories ≡ memory "cat" 7 ∷ memory "tea" 3 ∷ memory "sea" 3 ∷ []
unfolding sort_memories insert_memory
sort_test = refl

block_test :
    format_context_block (memory "cat" 7 ∷ memory "tea" 3 ∷ [])
    ≡ "<context>\n- cat\n- tea\n</context>\n\n"
unfolding format_context_block
block_test = refl

abbrev explicit : MemoryConfig
explicit = record { recall_default_speaker_scope = "explicit"; primary_user_id = "" }

abbrev up : String → Bool
up k = true

abbrev question : InputItem
question = record {
  type = "message";
  role = "user";
  content = plain "hello";
  call_id = "";
  name = "";
  args = "";
  output = "";
}

abbrev json : Codec
json = record {
  encode_input = λ items. some "[question]";
  decode_input = λ doc. some (question ∷ []);
  encode_output = λ items. some "[]";
  decode_output = λ doc. some [];
}

abbrev turn : Response
turn = record {
  id = "r1";
  input = question ∷ [];
  output = [];
  previous_response_id = "";
  session_id = "s";
  speaker_id = "ann";
  model = "m";
  created_at = "t";
  status = "completed";
}

abbrev message : String → ChatMsg
message text = record { role = "user"; content = text; tool_calls = []; tool_call_id = "" }

abbrev request : ChatRequestPayload
request = record { session_id = "s"; speaker_id = "ann"; messages = message "tea?" ∷ [] }

abbrev recall : RecallRequest → Result (List (Memory ℕ))
recall r = ok memories

abbrev for_ann : RecallRequest
for_ann = record { query = "tea?"; limit = pos 5; speaker_id = "ann" }
