-- ===== src/Broker/Sse/Assembly.antt =====
-- What the scan loop of `readSSEStream` in internal/broker/broker.go gathers.
use Prim.Native.String.{◌++◌ as str_append}
use text.Mathlib.TextLemmas.{
  append_assoc as str_append_assoc, append-nil as str_append-nil, nil-append as str_nil-append,
}
use microagent.Prelude.{
  String, ◌≡◌, refl, sym, ap, ◌∙◌, Option, none, some, List, [], ◌∷◌, ◌++◌, arith, Bool-cases, inl,
  inr, if◌then◌else◌,
}
use microagent.Prelude.Int.{ℤ, eqb_ℤ, eqb_ℤ_iff}
use microagent.Prelude.Text.{str_eq, eq_iff}
use microagent.Broker.Sse.{
  Fragment, Delta, Chunk, Acc, Accs, Line, skip, stop, delta, empty_acc, keep_first, add_fragment,
  put_fragment, put_fragments, read_line, scan,
}

-- The deltas of a stream, up to its end mark.
unfoldable pub deltas : (String → Option Chunk) → List String → List Delta
deltas parse [] = []
deltas parse (line ∷ lines) = elim (read_line parse line) [
  | skip ↦ deltas parse lines
  | stop ↦ []
  | delta d ↦ d ∷ deltas parse lines
]

abbrev pub tokens_of : List Delta → List String
tokens_of [] = []
tokens_of (d ∷ ds) = if str_eq d.content "" then tokens_of ds else d.content ∷ tokens_of ds

abbrev pub fragments_of : List Delta → List Fragment
fragments_of [] = []
fragments_of (d ∷ ds) = d.tool_calls ++ fragments_of ds

put_fragments-append :
    (fs gs : List Fragment) (accs : Accs)
    → put_fragments (fs ++ gs) accs ≡ put_fragments gs (put_fragments fs accs)
unfolding put_fragments
put_fragments-append [] gs accs = refl
put_fragments-append (f ∷ fs) gs accs = put_fragments-append fs gs (put_fragment f accs)

abbrev Scanned : (String → Option Chunk) → List String → Accs → Type 0
Scanned parse lines accs =
    scan parse lines accs
    ≡ (tokens_of (deltas parse lines), put_fragments (fragments_of (deltas parse lines)) accs)

scan_line :
    (parse : String → Option Chunk) (line : String) (lines : List String) (accs : Accs) (r : Line)
    → ((a : Accs) → Scanned parse lines a)
    → read_line parse line ≡ r
    → Scanned parse (line ∷ lines) accs
unfolding scan deltas put_fragments
scan_line parse line lines accs skip ih e = rw (e, scan, deltas) (ih accs)
scan_line parse line lines accs stop ih e = rw (e, scan, deltas)
scan_line parse line lines accs (delta d) ih e =
    rw (e, scan, deltas)
      (rw (ih (put_fragments d.tool_calls accs))
        (rw (put_fragments-append d.tool_calls (fragments_of (deltas parse lines)) accs)))

-- The loop sends the non-empty contents of the deltas up to the end mark, in order, and gathers all
-- their fragments in order.
pub scan_lem :
    (parse : String → Option Chunk) (lines : List String) (accs : Accs) → Scanned parse lines accs
unfolding scan deltas put_fragments
scan_lem parse [] accs = refl
scan_lem parse (line ∷ lines) accs =
    scan_line parse line lines accs (read_line parse line) (λ a. scan_lem parse lines a) refl

abbrev pub at_index : ℤ → Accs → Option Acc
at_index i [] = none
at_index i ((j, a) ∷ accs) = if eqb_ℤ j i then some a else at_index i accs

-- The fragments of one call.
abbrev pub of_index : ℤ → List Fragment → List Fragment
of_index i [] = []
of_index i (f ∷ fs) = if eqb_ℤ f.index i then f ∷ of_index i fs else of_index i fs

abbrev pub first_text : (Fragment → String) → List Fragment → String
first_text field [] = ""
first_text field (f ∷ fs) = if str_eq (field f) "" then first_text field fs else field f

abbrev pub joined_arguments : List Fragment → String
joined_arguments [] = ""
joined_arguments (f ∷ fs) = str_append f.arguments (joined_arguments fs)

-- The call that a list of fragments spells.
abbrev pub spelled : List Fragment → Acc
spelled fs = record {
  id = first_text (λ f. f.id) fs;
  type = first_text (λ f. f.type) fs;
  name = first_text (λ f. f.name) fs;
  args = joined_arguments fs;
}

abbrev or_empty : Option Acc → Acc
or_empty none = empty_acc
or_empty (some a) = a

abbrev gather : Option Acc → List Fragment → Option Acc
gather o [] = o
gather o (f ∷ fs) = gather (some (add_fragment (or_empty o) f)) fs

at_index-put_fragment :
    (i : ℤ) (f : Fragment) (accs : Accs)
    → at_index i (put_fragment f accs) ≡ (
        if eqb_ℤ f.index i
        then some (add_fragment (or_empty (at_index i accs)) f)
        else at_index i accs)
unfolding put_fragment
at_index-put_fragment i f [] = refl
at_index-put_fragment i f ((j, a) ∷ accs) =
    ground (
      arith,
      at_index-put_fragment i f accs,
      eqb_ℤ_iff j f.index,
      eqb_ℤ_iff f.index i,
      eqb_ℤ_iff j i,
    )

at_index-put_fragments :
    (i : ℤ) (fs : List Fragment) (accs : Accs)
    → at_index i (put_fragments fs accs) ≡ gather (at_index i accs) (of_index i fs)
unfolding put_fragments
at_index-put_fragments i [] accs = refl
at_index-put_fragments i (f ∷ fs) accs = elim (Bool-cases (eqb_ℤ f.index i)) [
  | inl same ↦ rw same (
      at_index-put_fragments i fs (put_fragment f accs)
      ∙ ap (λ o. gather o (of_index i fs)) (at_index-put_fragment i f accs ∙ (rw same)))
  | inr other ↦ rw other (
      at_index-put_fragments i fs (put_fragment f accs)
      ∙ ap (λ o. gather o (of_index i fs)) (at_index-put_fragment i f accs ∙ (rw other)))
]

-- What an accumulator becomes.
abbrev extended : Acc → List Fragment → Acc
extended a fs = record {
  id = if str_eq a.id "" then first_text (λ f. f.id) fs else a.id;
  type = if str_eq a.type "" then first_text (λ f. f.type) fs else a.type;
  name = if str_eq a.name "" then first_text (λ f. f.name) fs else a.name;
  args = str_append a.args (joined_arguments fs);
}

text_end : (x : String) → x ≡ (if str_eq x "" then "" else x)
text_end x = ground (arith, eq_iff x "")

text_next :
    (x y z : String)
    → (if str_eq (keep_first x y) "" then z else keep_first x y)
      ≡ (if str_eq x "" then if str_eq y "" then z else y else x)
text_next x y z = ground (arith, eq_iff x "", eq_iff y "")

arguments_next :
    (x y z : String)
    → str_append (if str_eq y "" then x else str_append x y) z ≡ str_append x (str_append y z)
arguments_next x y z = elim (Bool-cases (str_eq y "")) [
  | inl e ↦ rw e (let q : y ≡ "" = (eq_iff y "").0 e in rw (q, str_nil-append z))
  | inr e ↦ rw e (str_append_assoc x y z)
]

gather-some : (a : Acc) (fs : List Fragment) → gather (some a) fs ≡ some (extended a fs)
gather-some a [] = λ i. some (record {
  id = text_end a.id i;
  type = text_end a.type i;
  name = text_end a.name i;
  args = sym (str_append-nil a.args) i;
})
gather-some a (f ∷ fs) = gather-some (add_fragment a f) fs ∙ (λ i. some (record {
  id = text_next a.id f.id (first_text (λ g. g.id) fs) i;
  type = text_next a.type f.type (first_text (λ g. g.type) fs) i;
  name = text_next a.name f.name (first_text (λ g. g.name) fs) i;
  args = arguments_next a.args f.arguments (joined_arguments fs) i;
}))

gather-none : (f : Fragment) (fs : List Fragment) → gather none (f ∷ fs) ≡ some (spelled (f ∷ fs))
gather-none f fs = gather-some (add_fragment empty_acc f) fs ∙ (λ i. some (record {
  id = text_next "" f.id (first_text (λ g. g.id) fs) i;
  type = text_next "" f.type (first_text (λ g. g.type) fs) i;
  name = text_next "" f.name (first_text (λ g. g.name) fs) i;
  args =
      (arguments_next "" f.arguments (joined_arguments fs)
          ∙ str_nil-append (str_append f.arguments (joined_arguments fs)))
        i;
}))

-- Of the fragments up to the end mark, those of one index, if there are any, become one
-- accumulator: the first id, type and name that is not empty, and all arguments joined in order. An
-- index with no fragment has none.
pub scan-spelled :
    (parse : String → Option Chunk) (lines : List String) (i : ℤ)
    → let fs = of_index i (fragments_of (deltas parse lines)) in
      at_index i (scan parse lines []).1
      ≡ (elim fs [ [] ↦ none | f ∷ rest ↦ some (spelled (f ∷ rest)) ])
scan-spelled parse lines i =
    ap (λ r. at_index i r.1) (scan_lem parse lines [])
    ∙ at_index-put_fragments i (fragments_of (deltas parse lines)) []
    ∙ last (of_index i (fragments_of (deltas parse lines)))
  where
    last :
        (fs : List Fragment)
        → gather none fs ≡ (elim fs [ [] ↦ none | f ∷ rest ↦ some (spelled (f ∷ rest)) ])
    last [] = refl
    last (f ∷ rest) = gather-none f rest
