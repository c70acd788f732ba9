-- ===== src/Response/Content/Canonical.antt =====
-- `StitchHash` of internal/response/hash.go: what the hashed text tells of a conversation.
use Prim.Native.Char.{Char, code}
use Prim.Native.String.{◌++◌ as str_append}
use Prim.Native.String.append
use text.Mathlib.TextLemmas.{
  append-eq-nil_iff, nil-append, cons-ne-nil, head-eq_of_cons-eq, tail-eq_of_cons-eq,
}
use microagent.Prelude.{
  Bool, true, not, ◌&&◌, ◌==◌, arith, String, ◌≡◌, ◌≢◌, ◌↔◌, refl, sym, ap, ◌∙◌, List, [], ◌∷◌, All,
  Bool-cases, inl, inr, if◌then◌else◌,
}
use microagent.Prelude.Text.{str_eq}
use microagent.Response.Content.{
  InputItem, flatten_content, hash_role, canonical, nul, record_separator,
}

-- A text without a character.
abbrev pub Without : Char → String → Type 0
Without x String.[] = Unit
Without x (String.◌∷◌ c s) = (c ≢ x) × Without x s

abbrev is_without : Char → String → Bool
is_without x String.[] = true
is_without x (String.◌∷◌ c s) = not (code c == code x) && is_without x s

pub is_without-Without : (x : Char) (s : String) → is_without x s ≡ true → Without x s
is_without-Without x String.[] h = tt
is_without-Without x (String.◌∷◌ c s) h = elim (Bool-cases (code c == code x)) [
  | inl e ↦ absurd (ground arith)
  | inr e ↦ (
    λ p. let q : code c ≡ code x = ap code p in ground arith,
    is_without-Without x s (ground arith),
  )
]

split :
    (x : Char) (a b s t : String)
    → Without x a
    → Without x b
    → str_append a (String.◌∷◌ x s) ≡ str_append b (String.◌∷◌ x t)
    → (a ≡ b) × (s ≡ t)
split x String.[] String.[] s t h k e =
    (refl, tail-eq_of_cons-eq (sym (nil-append (String.◌∷◌ x s)) ∙ e ∙ nil-append (String.◌∷◌ x t)))
split x String.[] (String.◌∷◌ c b) s t h k e = absurd (
    k.0 (
      sym (
        head-eq_of_cons-eq
          (sym (nil-append (String.◌∷◌ x s)) ∙ e ∙ append.cons c b (String.◌∷◌ x t)))))
split x (String.◌∷◌ c a) String.[] s t h k e = absurd (
    h.0 (
      head-eq_of_cons-eq
        (sym (append.cons c a (String.◌∷◌ x s)) ∙ e ∙ nil-append (String.◌∷◌ x t))))
split x (String.◌∷◌ c a) (String.◌∷◌ d b) s t h k e =
    let p = sym (append.cons c a (String.◌∷◌ x s)) ∙ e ∙ append.cons d b (String.◌∷◌ x t) in
    let q = head-eq_of_cons-eq p in
    let r = split x a b s t h.1 k.1 (tail-eq_of_cons-eq p) in (cc, r.1)

-- The separators as characters.
single : (x : Char) (s : String) → str_append (String.◌∷◌ x String.[]) s ≡ String.◌∷◌ x s
single x s = append.cons x String.[] s ∙ ap (String.◌∷◌ x) (nil-append s)

-- A role and a text.
abbrev pub Turn : Type 0
Turn = String × String

abbrev spell_turn : Turn → String → String
spell_turn (r, c) s = str_append r (str_append nul (str_append c (str_append record_separator s)))

abbrev spell : List Turn → String
spell [] = ""
spell (t ∷ ts) = spell_turn t (spell ts)

-- A role without the first separator and a text without the second.
abbrev pub Clean : Turn → Type 0
Clean (r, c) = Without "\0" r × Without "\u{1e}" c

spell_turn_injective :
    (t u : Turn) (x y : String)
    → Clean t
    → Clean u
    → spell_turn t x ≡ spell_turn u y
    → (t ≡ u) × (x ≡ y)
spell_turn_injective (r, c) (q, d) x y h k e =
    let sx = str_append c (str_append record_separator x) in
    let sy = str_append d (str_append record_separator y) in
    let p =
      split "\0" r q sx sy h.0 k.0
        (ap (str_append r) (sym (single "\0" sx)) ∙ e ∙ ap (str_append q) (single "\0" sy)) in
    let z =
      split "\u{1e}" c d x y h.1 k.1 (
        ap (str_append c) (sym (single "\u{1e}" x))
        ∙ p.1
        ∙ ap (str_append d) (single "\u{1e}" y)) in
    (cc (p.0, z.0), z.1)

spell_turn_nonempty : (t : Turn) (x : String) → spell_turn t x ≢ ""
spell_turn_nonempty (r, c) x e =
    cons-ne-nil "\0" (str_append c (str_append record_separator x))
      (sym (single "\0" (str_append c (str_append record_separator x))) ∙ (append-eq-nil_iff.0 e).1)

spell_injective : (ts us : List Turn) → All Clean ts → All Clean us → spell ts ≡ spell us → ts ≡ us
spell_injective [] [] h k e = refl
spell_injective [] (u ∷ us) h k e = absurd (spell_turn_nonempty u (spell us) (sym e))
spell_injective (t ∷ ts) [] h k e = absurd (spell_turn_nonempty t (spell ts) e)
spell_injective (t ∷ ts) (u ∷ us) h k e =
    let p = spell_turn_injective t u (spell ts) (spell us) h.0 k.0 e in
    let q = spell_injective ts us h.1 k.1 p.1 in cc (p.0, q)

module _ (to_lower : String → String) where
  -- The roles and texts of the items whose text is not empty.
  abbrev pub turns : List InputItem → List Turn
  turns [] = []
  turns (it ∷ items) =
      if str_eq (flatten_content it.content) ""
      then turns items
      else (hash_role to_lower it.role, flatten_content it.content) ∷ turns items

  canonical-spell : (items : List InputItem) → canonical to_lower items ≡ spell (turns items)
  unfolding canonical
  canonical-spell [] = refl
  canonical-spell (it ∷ items) = elim (Bool-cases (str_eq (flatten_content it.content) "")) [
    | inl e ↦ rw e (canonical-spell items)
    | inr e ↦ rw e (
        ap (spell_turn (hash_role to_lower it.role, flatten_content it.content))
          (canonical-spell items))
  ]

  pub canonical-turns :
      (items others : List InputItem)
      → turns items ≡ turns others
      → canonical to_lower items ≡ canonical to_lower others
  canonical-turns items others e = canonical-spell items ∙ ap spell e ∙ sym (canonical-spell others)

  -- Two conversations whose roles have no NUL character and whose texts have no record separator
  -- give the hash the same text exactly when they have the same roles, in lower case with `user`
  -- for none, and the same flattened texts, in order, items without a text aside.
  pub canonical_iff :
      (items others : List InputItem)
      → All Clean (turns items)
      → All Clean (turns others)
      → (canonical to_lower items ≡ canonical to_lower others) ↔ (turns items ≡ turns others)
  canonical_iff items others h k = (
    λ e.
        spell_injective (turns items) (turns others) h k
          (sym (canonical-spell items) ∙ e ∙ canonical-spell others),
    canonical-turns items others,
  )
