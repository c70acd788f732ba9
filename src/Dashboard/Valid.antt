-- ===== src/Dashboard/Valid.antt =====
-- What internal/dashboard/descriptor.go accepts, stated apart from the order of its checks.
pub mod Bodies
use microagent.Prelude.{
  ℕ, suc, String, ◌≡◌, ◌≢◌, refl, sym, subst, Bool, true, not, ◌&&◌, ◌||◌, Option, none, some, List,
  [], ◌∷◌, arith, All, ◌⊎◌, inl, inr, ◌↔◌, if◌then◌else◌,
}
use microagent.Prelude.Int.{ℤ, pos, eqb_ℤ, ltb_ℤ, ◌≤ℤ◌}
use microagent.Prelude.Text.{str_eq, eq_iff}
use microagent.Dashboard.{
  FieldSchema, FormSection, IframeSection, StatusSection, ActionParam, Action, ActionSection,
  LogsSection, Section, PanelDescriptor, Problem, require, ◌⨟◌, within, present, some_entry,
  is_plain_type, validate_type, validate_params, validate_fields, validate_form, validate_iframe,
  validate_status, is_method, is_level, validate_actions, validate_action, validate_logs, with_body,
  validate_section, validate_sections, validate_descriptor, clamp_order, current_descriptor_version,
  reserved_order_ceiling,
}
use microagent.Dashboard.Valid.Bodies.{
  OneOf, IsParam, IsForm, IsIframe, IsStatus, seq_iff, within_iff, present_iff, some_entry_iff,
  params_iff, IsForm-iff, IsIframe-iff, IsStatus-iff,
}

with_body-none :
    {A : Type 0} (kind : String) (o : Option A) (check : A → Option Problem)
    → with_body kind o check ≡ none
    → (b : A) × (o ≡ some b) × (check b ≡ none)
with_body-none kind none check h = absurd (cc)
with_body-none kind (some b) check h = (b, refl, h)

branch :
    (k l : String) (x y : Option Problem)
    → (if str_eq k l then x else y) ≡ none
    → ((k ≡ l) × (x ≡ none)) ⊎ (y ≡ none)
branch k l x y h = ground (arith, eq_iff k l)

module _ (to_upper to_lower : String → String) where
  pub record IsAction (a : Action) : Type 0 where
    pub labelled : a.label ≢ ""
    pub addressed : a.url ≢ ""
    pub method : (a.method ≡ "") ⊎ OneOf (to_upper a.method) ("POST" ∷ "PUT" ∷ "DELETE" ∷ [])
    pub params : All IsParam a.params

  is_method-OneOf :
      (m : String)
      → (is_method to_upper to_lower m ≡ true) ↔ OneOf (to_upper m) ("POST" ∷ "PUT" ∷ "DELETE" ∷ [])
  is_method-OneOf m =
      ground
        (arith, eq_iff (to_upper m) "POST", eq_iff (to_upper m) "PUT", eq_iff (to_upper m) "DELETE")

  is_level-OneOf :
      (l : String)
      → (is_level to_upper to_lower l ≡ true)
        ↔ OneOf (to_lower l) ("debug" ∷ "info" ∷ "warn" ∷ "error" ∷ [])
  is_level-OneOf l = ground (
    arith,
    eq_iff (to_lower l) "debug",
    eq_iff (to_lower l) "info",
    eq_iff (to_lower l) "warn",
    eq_iff (to_lower l) "error",
  )

  actions_iff :
      (i : ℕ) (as_ : List Action)
      → (validate_actions to_upper to_lower i as_ ≡ none) ↔ All IsAction as_
  unfolding validate_actions
  actions_iff i [] = (λ _. tt, λ _. refl)
  actions_iff i (a ∷ as_) = ground (
    arith,
    actions_iff (suc i) as_,
    present_iff a.label Problem.label_required,
    present_iff a.url Problem.url_required,
    eq_iff a.method "",
    is_method-OneOf a.method,
    params_iff 0 a.params,
  )

  pub record IsActions (a : ActionSection) : Type 0 where
    pub titled : a.title ≢ ""
    pub some_actions : a.actions ≢ []
    pub actions : All IsAction a.actions

  action_iff : (a : ActionSection) → (validate_action to_upper to_lower a ≡ none) ↔ IsActions a
  unfolding validate_action
  action_iff a = ground (
    arith,
    present_iff a.title Problem.title_required,
    some_entry_iff a.actions Problem.no_actions,
    actions_iff 0 a.actions,
  )

  pub record IsLogs (l : LogsSection) : Type 0 where
    pub titled : l.title ≢ ""
    pub tail : l.tail_url ≢ ""
    pub history : l.history_url ≢ ""
    pub services : l.services_url ≢ ""
    pub level :
        (l.default_level ≡ "")
        ⊎ OneOf (to_lower l.default_level) ("debug" ∷ "info" ∷ "warn" ∷ "error" ∷ [])

  level_iff :
      (l : LogsSection)
      → (require
            (not (present l.default_level) || is_level to_upper to_lower l.default_level)
            (Problem.bad_level l.default_level)
          ≡ none)
        ↔ ((l.default_level ≡ "")
            ⊎ OneOf (to_lower l.default_level) ("debug" ∷ "info" ∷ "warn" ∷ "error" ∷ []))
  level_iff l = ground (arith, eq_iff l.default_level "", is_level-OneOf l.default_level)

  IsLogs-iff : (l : LogsSection) → (validate_logs to_upper to_lower l ≡ none) ↔ IsLogs l
  unfolding validate_logs
  IsLogs-iff l = ground (
    arith,
    present_iff l.title Problem.title_required,
    present_iff l.tail_url Problem.tail_url_required,
    present_iff l.history_url Problem.history_url_required,
    present_iff l.services_url Problem.services_url_required,
    level_iff l,
  )

  -- A section is valid if the body that its kind names is there and valid.
  pub data IsSection (s : Section) : Type 0 where
    form : (b : FormSection) → s.kind ≡ "form" → s.form ≡ some b → IsForm b → IsSection s
    iframe : (b : IframeSection) → s.kind ≡ "iframe" → s.iframe ≡ some b → IsIframe b → IsSection s
    status : (b : StatusSection) → s.kind ≡ "status" → s.status ≡ some b → IsStatus b → IsSection s
    logs : (b : LogsSection) → s.kind ≡ "logs" → s.logs ≡ some b → IsLogs b → IsSection s
    action : (b : ActionSection) → s.kind ≡ "action" → s.action ≡ some b → IsActions b → IsSection s

  section_sound : (s : Section) → validate_section to_upper to_lower s ≡ none → IsSection s
  unfolding validate_section
  section_sound s h = elim (branch s.kind "form" _ _ h) [
    | inl (k, c) ↦
        let (b, e, v) = with_body-none "form" s.form _ c in form b k e ((IsForm-iff b).0 v)
    | inr h₁ ↦ elim (branch s.kind "iframe" _ _ h₁) [
      | inl (k, c) ↦
          let (b, e, v) = with_body-none "iframe" s.iframe _ c in
          iframe b k e ((IsIframe-iff b).0 v)
      | inr h₂ ↦ elim (branch s.kind "status" _ _ h₂) [
        | inl (k, c) ↦
            let (b, e, v) = with_body-none "status" s.status _ c in
            status b k e ((IsStatus-iff b).0 v)
        | inr h₃ ↦ elim (branch s.kind "logs" _ _ h₃) [
          | inl (k, c) ↦
              let (b, e, v) = with_body-none "logs" s.logs _ c in logs b k e ((IsLogs-iff b).0 v)
          | inr h₄ ↦ elim (branch s.kind "action" _ _ h₄) [
            | inl (k, c) ↦
                let (b, e, v) = with_body-none "action" s.action _ c in
                action b k e ((action_iff b).0 v)
            | inr h₅ ↦ absurd (ground (arith, eq_iff s.kind ""))
          ]
        ]
      ]
    ]
  ]

  section_complete : (s : Section) → IsSection s → validate_section to_upper to_lower s ≡ none
  unfolding validate_section
  section_complete s (form b k e v) = rw (k, e) ((IsForm-iff b).1 v)
  section_complete s (iframe b k e v) = rw (k, e) ((IsIframe-iff b).1 v)
  section_complete s (status b k e v) = rw (k, e) ((IsStatus-iff b).1 v)
  section_complete s (logs b k e v) = rw (k, e) ((IsLogs-iff b).1 v)
  section_complete s (action b k e v) = rw (k, e) ((action_iff b).1 v)

  sections_iff :
      (i : ℕ) (ss : List Section)
      → (validate_sections to_upper to_lower i ss ≡ none) ↔ All IsSection ss
  unfolding validate_sections
  sections_iff i [] = (λ _. tt, λ _. refl)
  sections_iff i (s ∷ ss) =
      let rest = sections_iff (suc i) ss in
      (
        λ h.
            let (one, more) = (seq_iff _ _).0 h in
            (section_sound s ((within_iff _ _).0 one), rest.0 more),
        λ v. (seq_iff _ _).1 ((within_iff _ _).1 (section_complete s v.0), rest.1 v.1),
      )

  pub record IsDescriptor (d : PanelDescriptor) : Type 0 where
    pub current : d.version ≡ pos 1
    pub titled : d.title ≢ ""
    pub some_sections : d.sections ≢ []
    pub sections : All IsSection d.sections

  version_iff :
      (d : PanelDescriptor)
      → (eqb_ℤ d.version current_descriptor_version ≡ true) ↔ (d.version ≡ pos 1)
  version_iff d = ground arith

  IsDescriptor-sound :
      (d : PanelDescriptor) → validate_descriptor to_upper to_lower (some d) ≡ none → IsDescriptor d
  unfolding validate_descriptor
  IsDescriptor-sound d h = ground (
    arith,
    version_iff d,
    present_iff d.title Problem.title_required,
    some_entry_iff d.sections Problem.no_sections,
    sections_iff 0 d.sections,
  )

  descriptor_complete :
      (d : PanelDescriptor) → IsDescriptor d → validate_descriptor to_upper to_lower (some d) ≡ none
  unfolding validate_descriptor
  descriptor_complete d v = ground (
    arith,
    version_iff d,
    present_iff d.title Problem.title_required,
    some_entry_iff d.sections Problem.no_sections,
    sections_iff 0 d.sections,
  )

  -- A descriptor passes exactly when it is there, has the current version, a title and at least one
  -- section, and every section has the body that its kind names, with its required texts not empty,
  -- its fields and parameters of type string, number, integer, boolean or textarea, or an
  -- enumeration with values, the methods of its actions POST, PUT or DELETE in any case or none, and
  -- a log level of debug, info, warn or error in any case or none.
  pub validate_descriptor_iff :
      (o : Option PanelDescriptor)
      → (validate_descriptor to_upper to_lower o ≡ none)
        ↔ ((d : PanelDescriptor) × (o ≡ some d) × IsDescriptor d)
  unfolding validate_descriptor
  validate_descriptor_iff none = (λ h. absurd (cc), λ (d, e, v). absurd (cc))
  validate_descriptor_iff (some d) = (
    λ h. (d, refl, IsDescriptor-sound d h),
    λ (d', e, v).
        subst (λ x. validate_descriptor to_upper to_lower x ≡ none) (sym e)
          (descriptor_complete d' v),
  )

-- A service's explicit order below the ceiling becomes the ceiling, so that the result is never in
-- the range of the built-in panels; any other explicit order is kept; with none there is no order.
pub clamp_order_bounds :
    (d : PanelDescriptor) (contributed : Bool) (ord : ℤ)
    → d.order ≡ some ord
    → (r : ℤ) × (clamp_order (some d) contributed ≡ some r)
      × (ord ≤ℤ r)
      × (contributed ≡ true → reserved_order_ceiling ≤ℤ r)
      × ((r ≡ ord) ⊎ ((contributed ≡ true) × (r ≡ reserved_order_ceiling)))
unfolding clamp_order
clamp_order_bounds d contributed ord h = (
  if contributed && ltb_ℤ ord reserved_order_ceiling then reserved_order_ceiling else ord,
  ground arith,
  ground arith,
  ground arith,
  ground arith,
)
