-- ===== src/Workflow/Auth.antt =====
-- node_01_auth.py, with `ProjectMapping` of rbac/project_mapping.py: who may have a report made, and
-- what of the sources it may read.
use decision_center.Base.{
  ◌&&◌, Option, none, some, String, List, [], ◌∷◌, ◌++◌, if◌then◌else◌, is_empty_text, contains,
}
use decision_center.Base.Dict.{Dict, lookup, string_key}
use decision_center.Base.Effect.{Result, done, raised}
use decision_center.Rbac.{Role, role_of, role_permissions}
use decision_center.Workflow.{Mapping, Source, StringTools}
use decision_center.Workflow.Identity.{ProjectIdentity, resolve_project_identity}

-- `load_error` stands for what `ProjectMapping.load` raises on a file that it cannot read.
pub data AuthExc : Type 0 where
  rbac_denied load_error : AuthExc

-- What the node writes to the state.
pub record Authorized : Type 0 where
  pub allowed_projects : List String
  pub allowed_mailboxes : List String
  pub allowed_odoo_ids : List String
  pub rbac_role : String
  pub project_identity : ProjectIdentity

abbrev pub filled : String → List String
filled text = if is_empty_text text then [] else text ∷ []

-- `ProjectMapping.allowed_mailboxes`
unfoldable pub allowed_mailboxes_of : Mapping → List String
allowed_mailboxes_of m =
    m.shared_mailboxes
    ++ filled m.document_control_mailbox
    ++ (if contains "email" m.enabled_sources && m.group_mail_enabled
        then filled m.group_mail
        else [])

-- `ProjectMapping.allowed_odoo_ids`
unfoldable pub allowed_odoo_ids_of : Mapping → List String
allowed_odoo_ids_of m = filled m.project_external_id

-- `not role or role not in VALID_ROLES`, then `Role(role)`
unfoldable pub valid_role : Option String → Option Role
valid_role none = none
valid_role (some text) = if is_empty_text text then none else role_of text

abbrev pub text_of : Option String → String
text_of none = ""
text_of (some text) = text

module _ (tools : StringTools) where
  abbrev pub grant :
      Option String → String → List Source → Option Mapping → Result AuthExc Authorized
  grant role code evidence none = raised rbac_denied
  grant role code evidence (some m) = done (record {
    allowed_projects = code ∷ [];
    allowed_mailboxes = allowed_mailboxes_of m;
    allowed_odoo_ids = allowed_odoo_ids_of m;
    rbac_role = text_of role;
    project_identity = resolve_project_identity tools (some code) m evidence;
  })

  -- `ProjectMapping.load()` and `get`; `none` where the file cannot be read
  abbrev pub look_up :
      Option String
      → String
      → List Source
      → Option (Dict String Mapping)
      → Result AuthExc Authorized
  look_up role code evidence none = raised load_error
  look_up role code evidence (some entries) = grant role code evidence (lookup code entries)

  abbrev pub require_project :
      Option String
      → Option String
      → List Source
      → Option (Dict String Mapping)
      → Result AuthExc Authorized
  require_project role none evidence loaded = raised rbac_denied
  require_project role (some code) evidence loaded =
      if is_empty_text code then raised rbac_denied else look_up role code evidence loaded

  abbrev pub require_generate :
      Option String
      → Option Role
      → Option String
      → List Source
      → Option (Dict String Mapping)
      → Result AuthExc Authorized
  require_generate role none project evidence loaded = raised rbac_denied
  require_generate role (some r) project evidence loaded =
      if (role_permissions r).can_generate_report
      then require_project role project evidence loaded
      else raised rbac_denied

  -- `run` of node_01
  unfoldable pub authorize :
      Option String
      → Option String
      → List Source
      → Option (Dict String Mapping)
      → Result AuthExc Authorized
  authorize role project evidence loaded =
      require_generate role (valid_role role) project evidence loaded
