-- ===== src/Workflow.antt =====
-- The nodes of apps/edr/graph that open a report and plan its retrieval: the authorisation
-- (node_01_auth.py with rbac/project_mapping.py), the identity of the project
-- (project_identity.py), and node_02, node_03, node_04, node_10 and node_11.
pub mod Identity
pub mod Auth
pub mod Verified
pub mod Plan
pub mod Correct
pub mod Planned
mod Examples
use Prim.Native.Nat.{ℕ}
use package.text.Mathlib.Text.{find?}
use decision_center.Base.{Bool, true, false, Option, none, some, String, List}

-- An entry of docs/config/project_source_mapping.json with the fields that these nodes read; a field
-- that is missing, null or "" is "" or `none`, and a value that is no text is left out.
pub record Mapping : Type 0 where
  pub mapping_method : String
  pub mapping_status_gate : String
  pub mapping_name : String
  pub display_name : String
  pub odoo_name : String
  pub enabled_sources : List String
  pub shared_mailboxes : List String
  pub document_control_mailbox : String
  pub group_mail : String
  pub group_mail_enabled : Bool
  pub project_external_id : String

-- The fields of an evidence item that the identity is read from.
pub record Source : Type 0 where
  pub source_type : String
  pub source_uri : String
  pub title : String
  pub excerpt : String

-- `strip`, `lower` and `splitlines` of Python's texts.
pub record StringTools : Type 0 where
  pub strip : String → String
  pub lower : String → String
  pub splitlines : String → List String

abbrev is_found : Option ℕ → Bool
is_found none = false
is_found (some place) = true

-- `needle in text`
abbrev pub occurs_in : String → String → Bool
occurs_in needle text = is_found (find? text needle)
