-- ===== src/Examples/Dashboard.antt =====
-- internal/dashboard/descriptor.go on small descriptors.
use microagent.Prelude.{String, ◌≡◌, refl, none, some, [], ◌∷◌, ◌↔◌}
use microagent.Prelude.Int.{pos}
use microagent.Dashboard.{
  PanelDescriptor, Section, Problem, validate_descriptor, validate_sections, validate_section,
  validate_iframe,
}
use microagent.Dashboard.Valid.{IsDescriptor, validate_descriptor_iff}

abbrev docs_section : Section
docs_section = record {
  kind = "iframe";
  form = none;
  iframe = some (record { title = "Docs"; url = "/docs"; height = "" });
  status = none;
  logs = none;
  action = none;
}

abbrev docs_panel : PanelDescriptor
docs_panel = record {
  version = pos 1;
  title = "Docs";
  order = some (pos 7);
  sections = docs_section ∷ [];
}

abbrev same_case : String → String
same_case s = s

docs_passes : validate_descriptor same_case same_case (some docs_panel) ≡ none
unfolding validate_descriptor validate_sections validate_section validate_iframe
docs_passes = refl

untitled_fails :
    validate_descriptor same_case same_case (some (record docs_panel { title = "" }))
    ≡ some Problem.title_required
unfolding validate_descriptor
untitled_fails = refl

validate_descriptor_iff_example :
    (validate_descriptor same_case same_case (some docs_panel) ≡ none)
    ↔ ((d : PanelDescriptor) × (some docs_panel ≡ some d) × IsDescriptor same_case same_case d)
validate_descriptor_iff_example = validate_descriptor_iff same_case same_case (some docs_panel)
