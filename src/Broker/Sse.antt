-- ===== src/Broker/Sse.antt =====
-- `readSSEStream` of internal/broker/broker.go: the streamed answer of the llama-server. The lines
-- are those that `bufio.Scanner` delivers; `parse` is `json.Unmarshal` of a line's data into a
-- `chatCompletionChunk`, `none` on an error. The map of accumulators is a list of pairs with one
-- entry for each index. The warning on legacy calls is left out.
pub mod Assembly
pub mod Sorted
use Prim.Native.String.{◌++◌ as str_append, slice, len}
use text.Mathlib.Text.{starts_with}
use microagent.Prelude.{
  ℕ, String, Bool, true, false, ◌&&◌, not, Option, none, some, List, [], ◌∷◌, map, if◌then◌else◌,
}
use microagent.Prelude.Int.{ℤ, ltb_ℤ, eqb_ℤ}
use microagent.Prelude.Text.{str_eq}
use microagent.Broker.Llm.{ToolCall}

-- `toolCallDelta`
pub record Fragment : Type 0 where
  pub index : ℤ
  pub id : String
  pub type : String
  pub name : String
  pub arguments : String

pub record Delta : Type 0 where
  pub content : String
  pub tool_calls : List Fragment

-- `chatCompletionChunk`, by the deltas of its choices.
pub record Chunk : Type 0 where
  pub choices : List Delta

-- `toolCallAcc`
pub record Acc : Type 0 where
  pub id : String
  pub type : String
  pub name : String
  pub args : String

abbrev pub Accs : Type 0
Accs = List (ℤ × Acc)

abbrev pub empty_acc : Acc
empty_acc = record { id = ""; type = ""; name = ""; args = "" }

-- `if acc.ID == "" && frag.ID != "" { acc.ID = frag.ID }`
abbrev pub keep_first : String → String → String
keep_first old new = if str_eq old "" && not (str_eq new "") then new else old

abbrev pub add_fragment : Acc → Fragment → Acc
add_fragment a f = record {
  id = keep_first a.id f.id;
  type = keep_first a.type f.type;
  name = keep_first a.name f.name;
  args = if str_eq f.arguments "" then a.args else str_append a.args f.arguments;
}

unfoldable pub put_fragment : Fragment → Accs → Accs
put_fragment f [] = (f.index, add_fragment empty_acc f) ∷ []
put_fragment f ((i, a) ∷ accs) =
    if eqb_ℤ i f.index then (i, add_fragment a f) ∷ accs else (i, a) ∷ put_fragment f accs

unfoldable pub put_fragments : List Fragment → Accs → Accs
put_fragments [] accs = accs
put_fragments (f ∷ fs) accs = put_fragments fs (put_fragment f accs)

-- What the loop makes of a line: nothing, the end, or the delta of the first choice.
pub data Line : Type 0 where
  skip stop : Line
  delta : Delta → Line

-- `strings.TrimPrefix(line, "data: ")`
abbrev pub data_of : String → String
data_of line = slice line 6 (len line)

abbrev pub first_choice : Option Chunk → Line
first_choice none = skip
first_choice (some c) = elim c.choices [ [] ↦ skip | d ∷ _ ↦ delta d ]

module _ (parse : String → Option Chunk) where
  unfoldable pub read_line : String → Line
  read_line line =
      if starts_with line "data: "
      then if str_eq (data_of line) "[DONE]" then stop else first_choice (parse (data_of line))
      else skip

  -- The scan loop: the tokens sent, and the accumulators at its end.
  unfoldable pub scan : List String → Accs → List String × Accs
  scan [] accs = ([], accs)
  scan (line ∷ lines) accs = elim (read_line line) [
    | skip ↦ scan lines accs
    | stop ↦ ([], accs)
    | delta d ↦
        let (ts, accs') = scan lines (put_fragments d.tool_calls accs) in
        (if str_eq d.content "" then ts else d.content ∷ ts, accs')
  ]

-- `sort.Ints` on the indices, with the accumulators carried along.
unfoldable pub insert_sorted : ℤ × Acc → Accs → Accs
insert_sorted x [] = x ∷ []
insert_sorted x (y ∷ ys) = if ltb_ℤ y.0 x.0 then y ∷ insert_sorted x ys else x ∷ y ∷ ys

unfoldable pub sort_accs : Accs → Accs
sort_accs [] = []
sort_accs (x ∷ xs) = insert_sorted x (sort_accs xs)

abbrev pub call_of : ℤ × Acc → ToolCall
call_of (i, a) = record {
  id = a.id;
  type = if str_eq a.type "" then "function" else a.type;
  name = a.name;
  arguments = a.args;
}

module _ (parse : String → Option Chunk) where
  -- The tokens and the tool calls that the stream sends.
  unfoldable pub read_sse_stream : List String → List String × List ToolCall
  read_sse_stream lines = let (ts, accs) = scan parse lines [] in (ts, map call_of (sort_accs accs))
