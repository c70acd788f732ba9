-- ===== src/Dashboard.antt =====
-- internal/dashboard/descriptor.go: the panel descriptors that services announce, and their checks.
-- A pointer that may be nil is an `Option`; an error is a `Problem`, one constructor for each
-- message, with the indices it prints; the entries of a Go map stand in a list, in the order of one
-- iteration. Values that no check reads (`any`, floating-point bounds) are kept as their JSON text.
-- The letter case functions of Go's `strings` are parameters.
mod Descriptor
pub mod Valid
unfoldable pub use Descriptor.*
use microagent.Prelude.{
  ℕ, zero, suc, ◌+◌, String, Bool, true, false, ◌&&◌, ◌||◌, not, Option, none, some, List, [], ◌∷◌,
  if◌then◌else◌,
}
use microagent.Prelude.Int.{ℤ, pos, ltb_ℤ, eqb_ℤ}
use microagent.Prelude.Text.{str_eq}

abbrev pub require : Bool → Problem → Option Problem
require true e = none
require false e = some e

-- The next check runs if the one before found nothing.
infixr 6 ◌⨟◌
abbrev pub ◌⨟◌ : Option Problem → Option Problem → Option Problem
none ⨟ next = next
some e ⨟ next = some e

abbrev pub within : (Problem → Problem) → Option Problem → Option Problem
within wrap none = none
within wrap (some e) = some (wrap e)

abbrev pub present : String → Bool
present s = not (str_eq s "")

abbrev pub some_entry {ℓ} : {A : Type ℓ} → List A → Bool
some_entry [] = false
some_entry (x ∷ xs) = true

abbrev pub is_plain_type : String → Bool
is_plain_type t =
    str_eq t "string"
    || (str_eq t "number" || (str_eq t "integer" || (str_eq t "boolean" || str_eq t "textarea")))

-- `validateField` and `validateActionParamType` make the same tests on a type and its values.
abbrev pub validate_type : String → List String → Option Problem
validate_type t values =
    if is_plain_type t
    then none
    else if str_eq t "enum"
    then require (some_entry values) no_values
    else if str_eq t ""
    then some type_required
    else some (unknown_type t)

unfoldable pub validate_field : FieldSchema → Option Problem
validate_field f = validate_type f.type f.values

unfoldable pub validate_action_param_type : ActionParam → Option Problem
validate_action_param_type p = validate_type p.type p.values

unfoldable pub validate_params : ℕ → List ActionParam → Option Problem
unfolding validate_action_param_type
validate_params j [] = none
validate_params j (p ∷ ps) =
    within (in_param j) (require (present p.name) name_required ⨟ validate_action_param_type p)
    ⨟ validate_params (suc j) ps

unfoldable pub validate_fields : List (String × FieldSchema) → Option Problem
unfolding validate_field
validate_fields [] = none
validate_fields ((name, f) ∷ fs) = within (in_field name) (validate_field f) ⨟ validate_fields fs

unfoldable pub validate_form : FormSection → Option Problem
unfolding validate_fields
validate_form f =
    require (present f.title) title_required
    ⨟ require (present f.config_key) config_key_required
    ⨟ require (some_entry f.fields) no_fields
    ⨟ validate_fields f.fields

unfoldable pub validate_iframe : IframeSection → Option Problem
validate_iframe i = require (present i.title) title_required ⨟ require (present i.url) url_required

unfoldable pub validate_status : StatusSection → Option Problem
validate_status s =
    require (present s.title) title_required
    ⨟ require (present s.url) url_required
    ⨟ (if str_eq s.layout "key_value" || str_eq s.layout "table"
        then none
        else if str_eq s.layout ""
        then some layout_required
        else some (unknown_layout s.layout))

-- `ClampOrder`; `none` is `(0, false)`.
unfoldable pub clamp_order : Option PanelDescriptor → Bool → Option ℤ
clamp_order none contributed = none
clamp_order (some d) contributed = elim d.order [
  | none ↦ none
  | some ord ↦
      if contributed && ltb_ℤ ord reserved_order_ceiling
      then some reserved_order_ceiling
      else some ord
]

abbrev pub with_body : {A : Type 0} → String → Option A → (A → Option Problem) → Option Problem
with_body kind none check = some (body_required kind)
with_body kind (some b) check = check b

module _ (to_upper to_lower : String → String) where
  abbrev pub is_method : String → Bool
  is_method m =
      str_eq (to_upper m) "POST" || (str_eq (to_upper m) "PUT" || str_eq (to_upper m) "DELETE")

  abbrev pub is_level : String → Bool
  is_level l =
      str_eq (to_lower l) "debug"
      || (str_eq (to_lower l) "info" || (str_eq (to_lower l) "warn" || str_eq (to_lower l) "error"))

  unfoldable pub validate_actions : ℕ → List Action → Option Problem
  unfolding validate_params
  validate_actions i [] = none
  validate_actions i (a ∷ as_) =
      within (in_action i) (
        require (present a.label) label_required
        ⨟ require (present a.url) url_required
        ⨟ require (not (present a.method) || is_method a.method) (bad_method a.method)
        ⨟ validate_params 0 a.params)
      ⨟ validate_actions (suc i) as_

  unfoldable pub validate_action : ActionSection → Option Problem
  unfolding validate_actions
  validate_action a =
      require (present a.title) title_required
      ⨟ require (some_entry a.actions) no_actions
      ⨟ validate_actions 0 a.actions

  unfoldable pub validate_logs : LogsSection → Option Problem
  validate_logs l =
      require (present l.title) title_required
      ⨟ require (present l.tail_url) tail_url_required
      ⨟ require (present l.history_url) history_url_required
      ⨟ require (present l.services_url) services_url_required
      ⨟ require (not (present l.default_level) || is_level l.default_level)
          (bad_level l.default_level)

  unfoldable pub validate_section : Section → Option Problem
  validate_section s =
      if str_eq s.kind "form"
      then with_body "form" s.form validate_form
      else if str_eq s.kind "iframe"
      then with_body "iframe" s.iframe validate_iframe
      else if str_eq s.kind "status"
      then with_body "status" s.status validate_status
      else if str_eq s.kind "logs"
      then with_body "logs" s.logs validate_logs
      else if str_eq s.kind "action"
      then with_body "action" s.action validate_action
      else if str_eq s.kind ""
      then some kind_required
      else some (unknown_kind s.kind)

  unfoldable pub validate_sections : ℕ → List Section → Option Problem
  validate_sections i [] = none
  validate_sections i (s ∷ ss) =
      within (in_section i) (validate_section s) ⨟ validate_sections (suc i) ss

  unfoldable pub validate_descriptor : Option PanelDescriptor → Option Problem
  validate_descriptor none = some nil_descriptor
  validate_descriptor (some d) =
      require (eqb_ℤ d.version current_descriptor_version) (unsupported_version d.version)
      ⨟ require (present d.title) title_required
      ⨟ require (some_entry d.sections) no_sections
      ⨟ validate_sections 0 d.sections
