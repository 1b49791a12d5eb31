-- ===== src/Rbac/Access.antt =====
-- Who may read a report: the three read checks of apps/edr/app.py. `owner` is the row's
-- `user_id_hash`, and `entra` whether the Entra identity provider is configured.
use decision_center.Base.{
  Bool, false, ◌||◌, not, Option, none, some, String, str_eq, if◌then◌else◌, is_empty_text,
}
use decision_center.Rbac.{Role, role_permissions, role_of}
use decision_center.Rbac.Reviewer.{JwtClaims, Checked, allowed, http, validated_role, is_auditor}

-- `claims.role if claims else None`
abbrev pub role_str : Option JwtClaims → Option String
role_str none = none
role_str (some claims) = claims.role

-- `ROLE_PERMISSIONS[Role(role_str)].can_view_all_reports`, false where that raises
abbrev pub views_all : Option Role → Bool
views_all none = false
views_all (some r) = (role_permissions r).can_view_all_reports

-- `Role(role_str)`: `none` where it raises ValueError, on a missing role too
unfoldable pub parsed_role : Option String → Option Role
parsed_role none = none
parsed_role (some text) = role_of text

-- `role_str == Role.AUDITOR.value`
abbrev pub names_auditor : Option String → Bool
names_auditor none = false
names_auditor (some text) = str_eq text "auditor"

abbrev pub reviews : Checked Role → Bool
reviews (http code) = false
reviews (allowed r) = if is_auditor r then false else (role_permissions r).can_approve

-- `_can_review_report`
unfoldable pub can_review_report : JwtClaims → Bool
can_review_report claims = reviews (validated_role claims)

module _ (hash_user_id : String → String) where
  -- The checks once Entra is configured and the caller is known.
  unfoldable pub owner_or_reader : JwtClaims → String → Checked {0} Unit
  owner_or_reader claims owner =
      if names_auditor claims.role
      then allowed tt
      else if views_all (parsed_role claims.role)
      then allowed tt
      else if str_eq (hash_user_id claims.user_id) owner
      then allowed tt
      else http 403

  -- `claims is None or not claims.user_id`
  unfoldable pub known_reader : Option JwtClaims → String → Checked {0} Unit
  known_reader none owner = http 401
  known_reader (some claims) owner =
      if is_empty_text claims.user_id then http 401 else owner_or_reader claims owner

  -- `_is_requester`
  unfoldable pub is_requester : JwtClaims → String → Bool
  is_requester claims owner =
      if is_empty_text claims.user_id then false else str_eq (hash_user_id claims.user_id) owner

module _ (hash_user_id : String → String) (entra : Bool) where
  -- `_check_can_read_own_report`
  unfoldable pub check_can_read_own_report : Option JwtClaims → String → Checked {0} Unit
  check_can_read_own_report claims owner =
      if entra then known_reader hash_user_id claims owner else allowed tt

  -- `_check_can_read_report_job`: the same order of tests, written again for a job
  unfoldable pub check_can_read_report_job : Option JwtClaims → String → Checked {0} Unit
  check_can_read_report_job claims owner =
      if not entra then allowed tt else known_reader hash_user_id claims owner

  unfoldable pub content_reader : JwtClaims → String → Checked Role → Checked {0} Unit
  content_reader claims owner (http code) = http code
  content_reader claims owner (allowed r) =
      if not entra
      then allowed tt
      else if is_requester hash_user_id claims owner
          || is_auditor r
          || (role_permissions r).can_view_all_reports
          || can_review_report claims
      then allowed tt
      else http 403

  -- `_check_can_read_report_content`
  unfoldable pub check_can_read_report_content : JwtClaims → String → Checked {0} Unit
  check_can_read_report_content claims owner = content_reader claims owner (validated_role claims)
