-- ===== src/Dashboard/Descriptor.antt =====
-- The types of internal/dashboard/descriptor.go.
use microagent.Prelude.{ℕ, String, Bool, Option, List}
use microagent.Prelude.Int.{ℤ, pos}

abbrev pub current_descriptor_version : ℤ
current_descriptor_version = pos 1

abbrev pub reserved_order_ceiling : ℤ
reserved_order_ceiling = pos 100

pub record FieldSchema : Type 0 where
  pub type : String
  pub label : String
  pub description : String
  pub default : Option String
  pub readonly : Bool
  pub min : Option String
  pub max : Option String
  pub step : Option String
  pub values : List String

pub record FormSection : Type 0 where
  pub title : String
  pub config_key : String
  pub fields : List (String × FieldSchema)

pub record IframeSection : Type 0 where
  pub title : String
  pub url : String
  pub height : String

pub record StatusSection : Type 0 where
  pub title : String
  pub url : String
  pub layout : String

pub record ActionParam : Type 0 where
  pub name : String
  pub type : String
  pub required : Bool
  pub label : String
  pub description : String
  pub default : Option String
  pub values : List String

pub record Action : Type 0 where
  pub label : String
  pub url : String
  pub method : String
  pub body : List (String × String)
  pub params : List ActionParam
  pub confirm : String
  pub status_key : String

pub record ActionSection : Type 0 where
  pub title : String
  pub actions : List Action

pub record LogsSection : Type 0 where
  pub title : String
  pub tail_url : String
  pub history_url : String
  pub services_url : String
  pub default_services : List String
  pub default_level : String

pub record Section : Type 0 where
  pub kind : String
  pub form : Option FormSection
  pub iframe : Option IframeSection
  pub status : Option StatusSection
  pub logs : Option LogsSection
  pub action : Option ActionSection

pub record PanelDescriptor : Type 0 where
  pub version : ℤ
  pub title : String
  pub order : Option ℤ
  pub sections : List Section

pub data Problem : Type 0 where
  nil_descriptor title_required url_required no_sections kind_required : Problem
  label_required no_actions name_required no_values type_required config_key_required : Problem
  no_fields tail_url_required history_url_required services_url_required layout_required : Problem
  unsupported_version : ℤ → Problem
  body_required unknown_kind bad_method unknown_type bad_level unknown_layout : String → Problem
  in_section in_action in_param : ℕ → Problem → Problem
  in_field : String → Problem → Problem

-- `if !ok { return problem }`
