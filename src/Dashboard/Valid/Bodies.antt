-- ===== src/Dashboard/Valid/Bodies.antt =====
-- internal/dashboard/descriptor.go: the bodies of forms, frames and status sections, and types.
use microagent.Prelude.{
  ℕ, suc, String, ◌≡◌, ◌≢◌, refl, true, Option, none, List, [], ◌∷◌, arith, All, ◌⊎◌, inl, inr, ◌↔◌,
}
use microagent.Prelude.Text.{eq_iff}
use microagent.Dashboard.{
  FieldSchema, FormSection, IframeSection, StatusSection, ActionParam, Problem, require, ◌⨟◌,
  within, present, some_entry, is_plain_type, validate_type, validate_params, validate_fields,
  validate_form, validate_iframe, validate_status,
}

-- A text of a list.
abbrev pub OneOf : String → List String → Type 0
OneOf s [] = ⊥
OneOf s (x ∷ xs) = (s ≡ x) ⊎ OneOf s xs

-- A plain type, or an enumeration that has values.
abbrev pub IsTyped : String → List String → Type 0
IsTyped t values =
    OneOf t ("string" ∷ "number" ∷ "integer" ∷ "boolean" ∷ "textarea" ∷ [])
    ⊎ ((t ≡ "enum") × (values ≢ []))

is_plain_type-OneOf :
    (t : String)
    → (is_plain_type t ≡ true)
      ↔ OneOf t ("string" ∷ "number" ∷ "integer" ∷ "boolean" ∷ "textarea" ∷ [])
is_plain_type-OneOf t = ground (
  arith,
  eq_iff t "string",
  eq_iff t "number",
  eq_iff t "integer",
  eq_iff t "boolean",
  eq_iff t "textarea",
)

plain_or_enum :
    (t : String) (values : List String)
    → (validate_type t values ≡ none) ↔ ((is_plain_type t ≡ true) ⊎ ((t ≡ "enum") × (values ≢ [])))
plain_or_enum t values = ground (arith, eq_iff t "enum", eq_iff t "")

IsTyped-iff :
    (t : String) (values : List String) → (validate_type t values ≡ none) ↔ IsTyped t values
IsTyped-iff t values =
    let (sound, complete) = plain_or_enum t values in
    let (listed, plain) = is_plain_type-OneOf t in
    (
      λ h. elim (sound h) [ inl p ↦ inl (listed p) | inr e ↦ inr e ],
      λ v. elim v [ inl p ↦ complete (inl (plain p)) | inr e ↦ complete (inr e) ],
    )

pub seq_iff : (p q : Option Problem) → ((p ⨟ q) ≡ none) ↔ ((p ≡ none) × (q ≡ none))
seq_iff p q = ground arith

pub within_iff : (w : Problem → Problem) (p : Option Problem) → (within w p ≡ none) ↔ (p ≡ none)
within_iff w p = ground arith

pub present_iff : (s : String) (e : Problem) → (require (present s) e ≡ none) ↔ (s ≢ "")
present_iff s e = ground (arith, eq_iff s "")

pub some_entry_iff :
    {A : Type 0} (xs : List A) (e : Problem) → (require (some_entry xs) e ≡ none) ↔ (xs ≢ [])
some_entry_iff [] e = ground arith
some_entry_iff (x ∷ xs) e = ground arith

pub record IsParam (p : ActionParam) : Type 0 where
  pub named : p.name ≢ ""
  pub typed : IsTyped p.type p.values

pub params_iff : (j : ℕ) (ps : List ActionParam) → (validate_params j ps ≡ none) ↔ All IsParam ps
unfolding validate_params
params_iff j [] = (λ _. tt, λ _. refl)
params_iff j (p ∷ ps) = ground (
  arith,
  params_iff (suc j) ps,
  present_iff p.name Problem.name_required,
  IsTyped-iff p.type p.values,
)

abbrev pub IsField : String × FieldSchema → Type 0
IsField f = IsTyped (f.1).type (f.1).values

fields_iff : (fs : List (String × FieldSchema)) → (validate_fields fs ≡ none) ↔ All IsField fs
unfolding validate_fields
fields_iff [] = (λ _. tt, λ _. refl)
fields_iff ((name, f) ∷ fs) = ground (arith, fields_iff fs, IsTyped-iff f.type f.values)

pub record IsForm (f : FormSection) : Type 0 where
  pub titled : f.title ≢ ""
  pub keyed : f.config_key ≢ ""
  pub some_fields : f.fields ≢ []
  pub fields : All IsField f.fields

pub IsForm-iff : (f : FormSection) → (validate_form f ≡ none) ↔ IsForm f
unfolding validate_form
IsForm-iff f = ground (
  arith,
  present_iff f.title Problem.title_required,
  present_iff f.config_key Problem.config_key_required,
  some_entry_iff f.fields Problem.no_fields,
  fields_iff f.fields,
)

pub record IsIframe (i : IframeSection) : Type 0 where
  pub titled : i.title ≢ ""
  pub addressed : i.url ≢ ""

pub IsIframe-iff : (i : IframeSection) → (validate_iframe i ≡ none) ↔ IsIframe i
unfolding validate_iframe
IsIframe-iff i =
    ground
      (arith, present_iff i.title Problem.title_required, present_iff i.url Problem.url_required)

pub record IsStatus (s : StatusSection) : Type 0 where
  pub titled : s.title ≢ ""
  pub addressed : s.url ≢ ""
  pub laid_out : (s.layout ≡ "key_value") ⊎ (s.layout ≡ "table")

pub IsStatus-iff : (s : StatusSection) → (validate_status s ≡ none) ↔ IsStatus s
unfolding validate_status
IsStatus-iff s = ground (
  arith,
  present_iff s.title Problem.title_required,
  present_iff s.url Problem.url_required,
  eq_iff s.layout "key_value",
  eq_iff s.layout "table",
  eq_iff s.layout "",
)
