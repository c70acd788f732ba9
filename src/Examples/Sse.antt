-- ===== src/Examples/Sse.antt =====
-- The gate and the streamed answer of internal/broker/broker.go.
use microagent.Prelude.{
  ℕ, String, ◌≡◌, refl, true, Option, none, some, List, [], ◌∷◌, ◌↔◌, if◌then◌else◌,
}
use microagent.Prelude.Int.{pos}
use microagent.Prelude.Text.{str_eq}
use microagent.Slots.{
  SlotClass, SlotTable, SlotEntry, agent, blank, provisional_entry, normalize_class, class_of,
  is_owned_by,
}
use microagent.Broker.{Message}
use microagent.Broker.Llm.{LlmRequestPayload, ProxyEvent, token, handle_llm_request}
use microagent.Broker.Llm.Gate.{Holds, handle_llm_request_proxied}
use microagent.Broker.Sse.{
  Chunk, Fragment, read_sse_stream, scan, read_line, put_fragments, put_fragment, sort_accs,
  insert_sorted,
}
use microagent.Broker.Sse.Assembly.{deltas, tokens_of, fragments_of}
use microagent.Broker.Sse.Sorted.{Calls, read_sse_stream_lem}

abbrev offered_slot : SlotTable
offered_slot = blank 0 agent ∷ provisional_entry 1 agent "main" (pos 0) "c1" 12 ∷ []

abbrev request : LlmRequestPayload
request = record { slot_id = pos 1; slot_class = "agent" }

abbrev from_main : Message
from_main = record { correlation_id = "c2"; source = "main"; reply_stream = "s2" }

abbrev answer : List ProxyEvent
answer = token "Hel" ∷ token "lo" ∷ []

handle_llm_request_proxied_example :
    ((handle_llm_request offered_slot from_main (some request) answer).proxied ≡ true) ↔ (
      (c : SlotClass) × (s : SlotEntry) × (normalize_class "agent" ≡ (c, true))
      × Holds offered_slot (pos 1) c "main" s)
handle_llm_request_proxied_example =
    handle_llm_request_proxied offered_slot from_main request answer

-- The slot is held provisionally: not yet acknowledged, and yet the request passes.
provisional_passes :
    (handle_llm_request offered_slot from_main (some request) answer).proxied ≡ true
unfolding handle_llm_request normalize_class class_of is_owned_by
provisional_passes = refl

abbrev piece : ℕ → String → String → String → Fragment
piece i id name arguments = record {
  index = pos i;
  id = id;
  type = "";
  name = name;
  arguments = arguments;
}

abbrev calls_delta : List Fragment → Option Chunk
calls_delta fs = some (record { choices = record { content = ""; tool_calls = fs } ∷ [] })

-- Three chunks stand for their JSON texts.
abbrev parse : String → Option Chunk
parse s =
    if str_eq s "one"
    then some (record { choices = record { content = "Hi"; tool_calls = [] } ∷ [] })
    else if str_eq s "two"
    then calls_delta (piece 1 "b" "bash" "{" ∷ piece 0 "a" "ls" "[" ∷ [])
    else if str_eq s "three"
    then calls_delta (piece 1 "" "" "}" ∷ piece 0 "x" "" "]" ∷ [])
    else none

abbrev stream : List String
stream =
    "data: one" ∷ ": ping" ∷ "data: two" ∷ "data: {broken" ∷ "data: three" ∷ "data: [DONE]"
    ∷ "data: one" ∷ []

stream_read : read_sse_stream parse stream ≡ (
  "Hi" ∷ [],
  record { id = "a"; type = "function"; name = "ls"; arguments = "[]" }
      ∷ record { id = "b"; type = "function"; name = "bash"; arguments = "{}" }
      ∷ [],
)
unfolding read_sse_stream scan read_line put_fragments put_fragment sort_accs insert_sorted
stream_read = refl

read_sse_stream_lem_example :
    ((read_sse_stream parse stream).0 ≡ tokens_of (deltas parse stream))
    × Calls (fragments_of (deltas parse stream)) (read_sse_stream parse stream).1
read_sse_stream_lem_example = read_sse_stream_lem parse stream
