-- ===== src/Response/Content/Flatten.antt =====
-- `FlattenContent` of internal/response/hash.go against the joining of its texts.
use Prim.Native.String.{◌++◌ as str_append}
use text.Mathlib.TextLemmas.{
  append_assoc as str_append_assoc, append-nil as str_append-nil, append-eq-nil_iff,
}
use microagent.Prelude.{
  String, ◌≡◌, ◌≢◌, refl, sym, ap, ◌∙◌, false, ◌&&◌, not, List, [], ◌∷◌, ◌++◌, arith, All,
  Bool-cases, inl, inr, if◌then◌else◌,
}
use microagent.Prelude.Text.{str_eq, eq_iff}
use microagent.Response.Content.{
  ContentPart, AnyPart, object, no_object, any_parts, parts, is_text_type, write_part, flatten_any,
  flatten_parts, flatten_content,
}

-- The text that a part of this type shows.
abbrev pub shown : String → String → List String
shown type text = if is_text_type type && not (str_eq text "") then text ∷ [] else []

abbrev pub shown_any : List AnyPart → List String
shown_any [] = []
shown_any (no_object ∷ ps) = shown_any ps
shown_any (object type text ∷ ps) = shown type text ++ shown_any ps

abbrev pub shown_parts : List ContentPart → List String
shown_parts [] = []
shown_parts (p ∷ ps) = shown p.type p.text ++ shown_parts ps

-- The texts with one space before each.
abbrev pub spaced : List String → String
spaced [] = ""
spaced (t ∷ ts) = str_append " " (str_append t (spaced ts))

-- The texts with single spaces between them.
abbrev pub joined : List String → String
joined [] = ""
joined (t ∷ ts) = str_append t (spaced ts)

abbrev NotEmpty : String → Type 0
NotEmpty t = t ≢ ""

abbrev write_all : String → List String → String
write_all b [] = b
write_all b (t ∷ ts) = write_all (if str_eq b "" then t else str_append b (str_append " " t)) ts

write_all-write_part :
    (b type text : String) (ts : List String)
    → write_all (write_part b type text) ts ≡ write_all b (shown type text ++ ts)
unfolding write_part
write_all-write_part b type text ts = elim (Bool-cases (is_text_type type)) [
  | inr e ↦ rw e refl
  | inl e ↦ rw e (elim (Bool-cases (str_eq text "")) [ inl q ↦ rw q refl | inr q ↦ rw q refl ])
]

flatten_any-write_all :
    (b : String) (ps : List AnyPart) → flatten_any b ps ≡ write_all b (shown_any ps)
unfolding flatten_any
flatten_any-write_all b [] = refl
flatten_any-write_all b (no_object ∷ ps) = flatten_any-write_all b ps
flatten_any-write_all b (object type text ∷ ps) =
    flatten_any-write_all (write_part b type text) ps
    ∙ write_all-write_part b type text (shown_any ps)

flatten_parts-write_all :
    (b : String) (ps : List ContentPart) → flatten_parts b ps ≡ write_all b (shown_parts ps)
unfolding flatten_parts
flatten_parts-write_all b [] = refl
flatten_parts-write_all b (p ∷ ps) =
    flatten_parts-write_all (write_part b p.type p.text) ps
    ∙ write_all-write_part b p.type p.text (shown_parts ps)

shown-NotEmpty :
    (type text : String) (ts : List String) → All NotEmpty ts → All NotEmpty (shown type text ++ ts)
shown-NotEmpty type text ts h = elim (Bool-cases (is_text_type type)) [
  | inr e ↦ rw e h
  | inl e ↦ rw e (elim (Bool-cases (str_eq text "")) [
    | inl q ↦ rw q h
    | inr q ↦ rw q (ground (arith, eq_iff text ""), h)
  ])
]

shown_any-NotEmpty : (ps : List AnyPart) → All NotEmpty (shown_any ps)
shown_any-NotEmpty [] = tt
shown_any-NotEmpty (no_object ∷ ps) = shown_any-NotEmpty ps
shown_any-NotEmpty (object type text ∷ ps) =
    shown-NotEmpty type text (shown_any ps) (shown_any-NotEmpty ps)

shown_parts-NotEmpty : (ps : List ContentPart) → All NotEmpty (shown_parts ps)
shown_parts-NotEmpty [] = tt
shown_parts-NotEmpty (p ∷ ps) =
    shown-NotEmpty p.type p.text (shown_parts ps) (shown_parts-NotEmpty ps)

write_all-spaced :
    (b : String) (ts : List String) → b ≢ "" → write_all b ts ≡ str_append b (spaced ts)
write_all-spaced b [] h = sym (str_append-nil b)
write_all-spaced b (t ∷ ts) h =
    let q : str_eq b "" ≡ false = ground (arith, eq_iff b "") in
    let more : str_append b (str_append " " t) ≢ "" = λ e. h ((append-eq-nil_iff.0 e).0) in
    rw q (
      write_all-spaced (str_append b (str_append " " t)) ts more
      ∙ str_append_assoc b (str_append " " t) (spaced ts)
      ∙ ap (str_append b) (str_append_assoc " " t (spaced ts)))

write_all-joined : (ts : List String) → All NotEmpty ts → write_all "" ts ≡ joined ts
write_all-joined [] h = refl
write_all-joined (t ∷ ts) h = write_all-spaced t ts h.0

-- A list of parts, decoded JSON or `ContentPart`s, flattens to the texts that are not empty and
-- whose type is a text type or empty, joined by single spaces.
pub flatten_content-joined :
    (ps : List AnyPart) (qs : List ContentPart)
    → (flatten_content (any_parts ps) ≡ joined (shown_any ps))
      × (flatten_content (parts qs) ≡ joined (shown_parts qs))
unfolding flatten_content
flatten_content-joined ps qs = (
  flatten_any-write_all "" ps ∙ write_all-joined (shown_any ps) (shown_any-NotEmpty ps),
  flatten_parts-write_all "" qs ∙ write_all-joined (shown_parts qs) (shown_parts-NotEmpty qs),
)
