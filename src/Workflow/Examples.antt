-- ===== src/Workflow/Examples.antt =====
-- The theorems on the opening nodes, for a finance user of a project whose sources agree on its name.
use decision_center.Base.{true, some, String, List, [], ◌∷◌, refl, contains}
use decision_center.Base.Dict.{Dict, lookup}
use decision_center.Rbac.{role_of, find_role, role_permissions}
use decision_center.Workflow.{Mapping, Source, StringTools}
use decision_center.Workflow.Identity.{
  is_verified_mapping, candidates_of, unique_names, consolidate, resolve_project_identity,
  extract_odoo_project_name, extract_sharepoint_project_name, record_name,
}
use decision_center.Workflow.Auth.{
  Authorized, valid_role, allowed_mailboxes_of, allowed_odoo_ids_of, authorize,
}
use decision_center.Workflow.Verified.{
  Agreed, resolve_project_identity-Agreed, Granted, authorize-Granted,
}

abbrev plain_tools : StringTools
plain_tools = record { strip = λ text. text; lower = λ text. text; splitlines = λ text. text ∷ [] }

abbrev tower : Mapping
tower = record {
  mapping_method = "manual";
  mapping_status_gate = "COMPLETE";
  mapping_name = "Marina Tower";
  display_name = "";
  odoo_name = "Marina Tower";
  enabled_sources = "odoo" ∷ "email" ∷ [];
  shared_mailboxes = [];
  document_control_mailbox = "dc@tower";
  group_mail = "team@tower";
  group_mail_enabled = true;
  project_external_id = "prj-1";
}

abbrev evidence : List Source
evidence =
    record {
      source_type = "odoo";
      source_uri = "odoo://project.project/7";
      title = "Marina Tower";
      excerpt = "";
    }
    ∷ []

resolve_project_identity-Agreed_example :
    Agreed tower
      (candidates_of plain_tools tower evidence)
      (resolve_project_identity plain_tools (some "PRJ-001") tower evidence)
unfolding resolve_project_identity consolidate unique_names candidates_of is_verified_mapping
    extract_odoo_project_name extract_sharepoint_project_name record_name contains
resolve_project_identity-Agreed_example =
    resolve_project_identity-Agreed plain_tools (some "PRJ-001") tower evidence refl

abbrev entries : Dict String Mapping
entries = ("PRJ-001", tower) ∷ []

abbrev granted : Authorized
granted = record {
  allowed_projects = "PRJ-001" ∷ [];
  allowed_mailboxes = "dc@tower" ∷ "team@tower" ∷ [];
  allowed_odoo_ids = "prj-1" ∷ [];
  rbac_role = "finance";
  project_identity = resolve_project_identity plain_tools (some "PRJ-001") tower [];
}

authorize-Granted_example : Granted (some "finance") (some "PRJ-001") (some entries) granted
unfolding authorize valid_role role_of find_role role_permissions lookup allowed_mailboxes_of
    allowed_odoo_ids_of contains
authorize-Granted_example =
    authorize-Granted plain_tools (some "finance") (some "PRJ-001") [] (some entries) granted refl
