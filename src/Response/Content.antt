-- ===== src/Response/Content.antt =====
-- internal/response/hash.go and the item types of store.go: contents, their flattening, and the
-- canonical form of a conversation whose digest finds its session again. A content is what its Go
-- value is: a text, a list of decoded JSON parts, a list of `ContentPart`, or anything else.
-- `to_lower` is `strings.ToLower` and `digest` the SHA-256 in hexadecimal digits.
pub mod Flatten
pub mod Canonical
use Prim.Native.String.{◌++◌ as str_append}
use microagent.Prelude.{String, Bool, ◌||◌, not, List, [], ◌∷◌, if◌then◌else◌}
use microagent.Prelude.Text.{str_eq}

pub record ContentPart : Type 0 where
  pub type : String
  pub text : String

-- An element of a decoded JSON array: an object, with the texts of its two members (empty when
-- there is none or it is no text), or anything else.
pub data AnyPart : Type 0 where
  object : String → String → AnyPart
  no_object : AnyPart

pub data Content : Type 0 where
  plain : String → Content
  any_parts : List AnyPart → Content
  parts : List ContentPart → Content
  other : Content

pub record InputItem : Type 0 where
  pub type : String
  pub role : String
  pub content : Content
  pub call_id : String
  pub name : String
  pub args : String
  pub output : String

pub record OutputItem : Type 0 where
  pub type : String
  pub role : String
  pub content : List ContentPart
  pub call_id : String
  pub name : String
  pub args : String
  pub output : String

abbrev pub is_text_type : String → Bool
is_text_type t =
    str_eq t "" || (str_eq t "input_text" || (str_eq t "output_text" || str_eq t "text"))

-- One round of either loop: the builder's text with a part's text written to it.
unfoldable pub write_part : String → String → String → String
write_part b type text =
    if not (is_text_type type)
    then b
    else if str_eq text ""
    then b
    else if str_eq b ""
    then text
    else str_append b (str_append " " text)

unfoldable pub flatten_any : String → List AnyPart → String
flatten_any b [] = b
flatten_any b (no_object ∷ ps) = flatten_any b ps
flatten_any b (object type text ∷ ps) = flatten_any (write_part b type text) ps

unfoldable pub flatten_parts : String → List ContentPart → String
flatten_parts b [] = b
flatten_parts b (p ∷ ps) = flatten_parts (write_part b p.type p.text) ps

unfoldable pub flatten_content : Content → String
flatten_content (plain s) = s
flatten_content (any_parts ps) = flatten_any "" ps
flatten_content (parts ps) = flatten_parts "" ps
flatten_content other = ""

-- The conversion drops the call's id, name, arguments and output.
unfoldable pub output_item_to_input_item : OutputItem → InputItem
output_item_to_input_item o = record {
  type = o.type;
  role = o.role;
  content = parts o.content;
  call_id = "";
  name = "";
  args = "";
  output = "";
}

abbrev pub nul : String
nul = "\0"

abbrev pub record_separator : String
record_separator = "\u{1e}"

module _ (to_lower : String → String) where
  abbrev pub hash_role : String → String
  hash_role role = if str_eq (to_lower role) "" then "user" else to_lower role

  -- All that is written to the hash, in order.
  unfoldable pub canonical : List InputItem → String
  canonical [] = ""
  canonical (it ∷ items) =
      if str_eq (flatten_content it.content) ""
      then canonical items
      else str_append (hash_role it.role) (
          str_append nul (
            str_append (flatten_content it.content)
              (str_append record_separator (canonical items))))

  unfoldable pub stitch_hash : (String → String) → List InputItem → String
  stitch_hash digest items = digest (canonical items)
