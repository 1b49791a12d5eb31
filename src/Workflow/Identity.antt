-- ===== src/Workflow/Identity.antt =====
-- `resolve_project_identity` of project_identity.py.
use decision_center.Base.{
  Bool, true, false, not, ◌&&◌, ◌||◌, Option, none, some, String, List, [], ◌∷◌, ◌++◌, str_eq,
  if◌then◌else◌, is_empty_text, contains,
}
use decision_center.Workflow.{Mapping, Source, StringTools, occurs_in}

pub data Confidence : Type 0 where
  verified partial not_verified : Confidence

-- `ProjectIdentity`; the conflict note is kept as the names in it.
pub record ProjectIdentity : Type 0 where
  pub project_code : String
  pub project_name : String
  pub identity_source : String
  pub has_conflict : Bool
  pub identity_confidence : Confidence
  pub missing_identity_evidence : List String
  pub conflict_notes : List String

-- Where there is no project code.
abbrev pub no_project : ProjectIdentity
no_project = record {
  project_code = "";
  project_name = "Not verified";
  identity_source = "none";
  has_conflict = false;
  identity_confidence = not_verified;
  missing_identity_evidence = "project_code not provided" ∷ [];
  conflict_notes = [];
}

-- A name with the label of its source.
abbrev pub Candidate : Type 0
Candidate = String × String

-- `_is_verified_mapping`
unfoldable pub is_verified_mapping : Mapping → Bool
is_verified_mapping m =
    occurs_in "VERIFIED" m.mapping_method
    || str_eq m.mapping_status_gate "EMAIL_GROUP_ENRICHED"
    || str_eq m.mapping_status_gate "COMPLETE"

-- `seen_names` after the candidates
unfoldable pub unique_names : List String → List Candidate → List String
unique_names seen [] = seen
unique_names seen ((label, name) ∷ rest) =
    unique_names (if contains name seen then seen else seen ++ name ∷ []) rest

abbrev pub first_label : List Candidate → String
first_label [] = ""
first_label ((label, name) ∷ rest) = label

-- `_, name` by the number of distinct names
unfoldable pub consolidate : String → Bool → List Candidate → List String → ProjectIdentity
consolidate code mapping_verified candidates [] = record {
  project_code = code;
  project_name = "Not verified";
  identity_source = "none";
  has_conflict = false;
  identity_confidence = not_verified;
  missing_identity_evidence =
      "project mapping" ∷ "odoo project.project" ∷ "sharepoint displayName" ∷ [];
  conflict_notes = [];
}
consolidate code mapping_verified candidates (name ∷ []) = record {
  project_code = code;
  project_name = name;
  identity_source = first_label candidates;
  has_conflict = false;
  identity_confidence = if mapping_verified then verified else partial;
  missing_identity_evidence = [];
  conflict_notes = [];
}
consolidate code mapping_verified candidates (name ∷ other ∷ names) = record {
  project_code = code;
  project_name = name;
  identity_source = first_label candidates;
  has_conflict = true;
  identity_confidence = partial;
  missing_identity_evidence = "conflict resolution between identity sources" ∷ [];
  conflict_notes = name ∷ other ∷ names;
}

module _ (tools : StringTools) where
  -- The first line that is not blank.
  unfoldable pub first_line : List String → Option String
  first_line [] = none
  first_line (line ∷ lines) =
      let later = first_line lines in
      if is_empty_text (tools.strip line) then later else some (tools.strip line)

  abbrev pub is_placeholder : String → Bool
  is_placeholder name =
      str_eq (tools.lower name) "odoo record" || str_eq (tools.lower name) "odoo project record"

  -- The name in an Odoo project record: its title, or the first line of its excerpt.
  unfoldable pub record_name : Source → Option String
  record_name ev =
      if not (is_empty_text (tools.strip ev.title)) && not (is_placeholder (tools.strip ev.title))
      then some (tools.strip ev.title)
      else first_line (tools.splitlines (tools.strip ev.excerpt))

  abbrev pub or_later : Option String → Option String → Option String
  or_later none later = later
  or_later (some name) later = some name

  -- `_extract_odoo_project_name`
  unfoldable pub extract_odoo_project_name : List Source → Option String
  extract_odoo_project_name [] = none
  extract_odoo_project_name (ev ∷ evs) =
      let later = extract_odoo_project_name evs in
      if str_eq ev.source_type "odoo" && occurs_in "project.project" (tools.lower ev.source_uri)
      then or_later (record_name ev) later
      else later

  abbrev pub is_clean_title : String → Bool
  is_clean_title title =
      not (is_empty_text title) && not (occurs_in "/" title) && not (occurs_in "\\" title)

  -- `_extract_sharepoint_project_name`
  unfoldable pub extract_sharepoint_project_name : List Source → Option String
  extract_sharepoint_project_name [] = none
  extract_sharepoint_project_name (ev ∷ evs) =
      let later = extract_sharepoint_project_name evs in
      if str_eq ev.source_type "sharepoint" && is_clean_title (tools.strip ev.title)
      then some (tools.strip ev.title)
      else later

  -- `mapping.get("project_name") or mapping.get("display_name") or ""`, stripped
  abbrev pub registry_name : Mapping → String
  registry_name m =
      if is_empty_text m.mapping_name
      then tools.strip m.display_name
      else tools.strip m.mapping_name

  abbrev pub candidate_named : String → String → List Candidate
  candidate_named label name = if is_empty_text name then [] else (label, name) ∷ []

  abbrev pub from_evidence : String → Option String → List Candidate
  from_evidence label none = []
  from_evidence label (some name) = (label, name) ∷ []

  abbrev pub registry_label : Mapping → String
  registry_label m =
      if is_verified_mapping m then "approved project registry" else "source_mappings table"

  -- `candidates`, in order of trust
  unfoldable pub candidates_of : Mapping → List Source → List Candidate
  candidates_of m evidence =
      candidate_named (registry_label m) (registry_name m)
      ++ candidate_named "odoo project.project" (tools.strip m.odoo_name)
      ++ from_evidence "odoo project.project" (extract_odoo_project_name evidence)
      ++ from_evidence "sharepoint displayName" (extract_sharepoint_project_name evidence)

  -- `resolve_project_identity`, on the project's entry (an empty one if there is none)
  unfoldable pub resolve_project_identity : Option String → Mapping → List Source → ProjectIdentity
  resolve_project_identity none m evidence = no_project
  resolve_project_identity (some code) m evidence =
      if is_empty_text code
      then no_project
      else consolidate code (is_verified_mapping m) (candidates_of m evidence)
          (unique_names [] (candidates_of m evidence))
