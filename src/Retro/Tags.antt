-- ===== src/Retro/Tags.antt =====
-- internal/retro/job.go: what the jobs hand to the memory service.
-- A confidence is given by whether it is above 0 and at most 1, and by its text with two decimals.
-- `trim` is `strings.TrimSpace` and `equal_fold` is `strings.EqualFold`.
pub mod Clean
use Prim.Native.String.{◌++◌ as str_append}
use microagent.Prelude.{String, Bool, true, false, ◌||◌, List, [], ◌∷◌, ◌++◌, if◌then◌else◌}
use microagent.Prelude.Text.{str_eq}
use microagent.Response.{is_seen, Map}

pub record Confidence : Type 0 where
  pub in_range : Bool
  pub two_decimals : String

-- `ExtractedMemory`, the fields that are read.
pub record ExtractedMemory : Type 0 where
  pub content : String
  pub tags : List String
  pub memory_type : String
  pub confidence : Confidence
  pub is_correction : Bool
  pub speaker_id : String
  pub fact_type : String
  pub entities : List String

-- `ExtractedSkill`, the fields that are read.
pub record ExtractedSkill : Type 0 where
  pub concept : String
  pub problem_class : String
  pub approach : String
  pub outcome : String
  pub tags : List String
  pub confidence : Confidence

-- The fields of `RetainRequest` that the jobs set. The metadata is a map, written here as the list
-- of its members.
pub record RetainRequest : Type 0 where
  pub content : String
  pub tags : List String
  pub metadata : Map String
  pub entities : List String

-- A member that is set under a condition.
abbrev pub member_if : Bool → String → String → Map String
member_if b key value = if b then (key, value) ∷ [] else []

abbrev pub member_of : String → String → Map String
member_of key value = if str_eq value "" then [] else (key, value) ∷ []

module _ (trim : String → String) where
  -- The loop of `uniqueTags`; `seen` are the tags kept so far.
  unfoldable pub unique_from : List String → List String → List String
  unique_from seen [] = []
  unique_from seen (raw ∷ raws) =
      let t = trim raw in
      let kept = unique_from (t ∷ seen) raws in
      let skipped = unique_from seen raws in
      if str_eq t "" || is_seen t seen then skipped else t ∷ kept

  unfoldable pub unique_tags : List String → List String
  unique_tags tags = unique_from [] tags

module _ (equal_fold : String → String → Bool) where
  unfoldable pub strip_corrections_tag : List String → List String
  strip_corrections_tag [] = []
  strip_corrections_tag (t ∷ ts) =
      let rest = strip_corrections_tag ts in
      if equal_fold t "corrections" || equal_fold t "correction" then rest else t ∷ rest

  unfoldable pub build_extract_retain_request : (String → String) → ExtractedMemory → RetainRequest
  build_extract_retain_request trim mem = record {
    content = trim mem.content;
    tags = strip_corrections_tag (unique_tags trim mem.tags);
    metadata =
        ("provenance", "explicit")
          ∷ member_if mem.confidence.in_range "confidence" mem.confidence.two_decimals
        ++ (member_of "memory_type_hint" mem.memory_type
            ++ (member_if mem.is_correction "is_correction" "true"
                ++ (member_of "speaker_id" mem.speaker_id ++ member_of "fact_type" mem.fact_type)));
    entities = mem.entities;
  }

abbrev pub no_request : RetainRequest
no_request = record { content = ""; tags = []; metadata = []; entities = [] }

abbrev pub part_of : String → String → List String
part_of label text = if str_eq text "" then [] else str_append label text ∷ []

-- `strings.Join` with newlines.
unfoldable pub join_lines : List String → String
join_lines [] = ""
join_lines (x ∷ []) = x
join_lines (x ∷ y ∷ xs) = str_append x (str_append "\n" (join_lines (y ∷ xs)))

abbrev pub headline : (String → String) → ExtractedSkill → String
headline trim skill =
    let concept = trim skill.concept in
    trim (if str_eq concept "" then trim skill.problem_class else concept)

unfoldable pub build_skill_retain_request :
    (String → String) → ExtractedSkill → String → RetainRequest
build_skill_retain_request trim skill speaker =
    if str_eq (headline trim skill) "" then no_request else record {
      content = join_lines (
          headline trim skill ∷ part_of "Problem: " (trim skill.problem_class)
          ++ (part_of "Approach: " (trim skill.approach)
              ++ part_of "Outcome: " (trim skill.outcome)));
      tags = unique_tags trim ("skill" ∷ skill.tags);
      metadata =
          ("provenance", "implicit")
            ∷ member_if skill.confidence.in_range "confidence" skill.confidence.two_decimals
          ++ member_of "speaker_id" speaker;
      entities = [];
    }
