-- ===== src/Rbac.antt =====
-- The role model of apps/edr/rbac/roles.py: the nine roles, their permissions, and `Role(text)`.

pub mod Reviewer
pub mod Access
pub mod Readers
mod Examples
use decision_center.Base.{
  Bool, true, false, Option, none, some, String, List, [], ◌∷◌, str_eq, if◌then◌else◌,
}

pub data Role : Type 0 where
  executive project_manager finance commercial document_control : Role
  procurement legal auditor admin : Role

-- `Role.X.value`
abbrev pub role_value : Role → String
role_value executive = "executive"
role_value project_manager = "project_manager"
role_value finance = "finance"
role_value commercial = "commercial"
role_value document_control = "document_control"
role_value procurement = "procurement"
role_value legal = "legal"
role_value auditor = "auditor"
role_value admin = "admin"

-- The members in the order of the class.
abbrev pub all_roles : List Role
all_roles =
    executive ∷ project_manager ∷ finance ∷ commercial ∷ document_control ∷ procurement ∷ legal
    ∷ auditor ∷ admin ∷ []

-- The member whose value is the text; `none` where `Role(text)` raises ValueError.
unfoldable pub find_role : List Role → String → Option Role
find_role [] text = none
find_role (r ∷ rs) text =
    let rest = find_role rs text in if str_eq (role_value r) text then some r else rest

unfoldable pub role_of : String → Option Role
unfolding find_role
role_of text = find_role all_roles text

pub record RolePermissions : Type 0 where
  pub can_access_sharepoint : Bool
  pub can_access_owncloud : Bool
  pub can_access_own_mailbox : Bool
  pub can_access_shared_mailboxes : Bool
  pub can_access_odoo_budget : Bool
  pub can_access_odoo_actual_cost : Bool
  pub can_approve : Bool
  pub can_access_audit_logs : Bool
  pub can_generate_report : Bool
  pub can_view_all_reports : Bool

-- What six of the nine roles have.
abbrev pub member_permissions : RolePermissions
member_permissions = record {
  can_access_sharepoint = true;
  can_access_owncloud = true;
  can_access_own_mailbox = true;
  can_access_shared_mailboxes = true;
  can_access_odoo_budget = true;
  can_access_odoo_actual_cost = true;
  can_approve = true;
  can_access_audit_logs = true;
  can_generate_report = true;
  can_view_all_reports = false;
}

-- `ROLE_PERMISSIONS[role]`
unfoldable pub role_permissions : Role → RolePermissions
role_permissions executive = record member_permissions {
  can_access_own_mailbox = false;
  can_view_all_reports = true;
}
role_permissions document_control = record member_permissions {
  can_access_odoo_budget = false;
  can_access_odoo_actual_cost = false;
}
role_permissions auditor = record member_permissions {
  can_access_own_mailbox = false;
  can_access_shared_mailboxes = false;
  can_approve = false;
  can_generate_report = false;
}
role_permissions admin = record member_permissions {
  can_access_own_mailbox = false;
  can_view_all_reports = true;
}
role_permissions _ = member_permissions
