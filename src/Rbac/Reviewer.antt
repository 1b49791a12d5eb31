-- ===== src/Rbac/Reviewer.antt =====
-- The authorisation helpers of apps/edr/app.py over the validated claims of a caller.
use decision_center.Base.{
  Bool, true, false, Option, none, some, String, if◌then◌else◌, is_empty_text, ℕ,
}
use decision_center.Rbac.{Role, auditor, admin, role_permissions, role_of}

-- `JWTClaims`: the fields that the handlers read.
pub record JwtClaims : Type 0 where
  pub user_id : String
  pub role : Option String

-- An HTTPException by its status code, or the value.
pub data Checked {ℓ} (A : Type ℓ) : Type ℓ where
  allowed : A → Checked A
  http : ℕ → Checked A

-- `_require_claims`
unfoldable pub require_claims : Option JwtClaims → Checked JwtClaims
require_claims none = http 401
require_claims (some claims) = allowed claims

-- `not role`, then `Role(role)`; both failures are a 403.
unfoldable pub role_from_text : Option String → Checked Role
role_from_text none = http 403
role_from_text (some text) =
    if is_empty_text text
    then http 403
    else elim (role_of text) [ none ↦ http 403 | some r ↦ allowed r ]

-- `_validated_role`
unfoldable pub validated_role : JwtClaims → Checked Role
unfolding role_from_text
validated_role claims = role_from_text claims.role

abbrev pub is_auditor : Role → Bool
is_auditor auditor = true
is_auditor _ = false

abbrev pub is_admin : Role → Bool
is_admin admin = true
is_admin _ = false

-- The action that a review records: `_check_reviewer_rbac` has one way to return.
pub data Action : Type 0 where
  approve admin_override report_cancelled : Action

unfoldable pub reviewer_action : Checked Role → Checked Action
reviewer_action (http code) = http code
reviewer_action (allowed r) =
    if is_auditor r
    then http 403
    else if (role_permissions r).can_approve
    then allowed approve
    else http 403

-- `_check_reviewer_rbac`
unfoldable pub check_reviewer_rbac : JwtClaims → Checked Action
unfolding reviewer_action validated_role
check_reviewer_rbac claims = reviewer_action (validated_role claims)

unfoldable pub admin_only : JwtClaims → Checked Role → Checked JwtClaims
admin_only claims (http code) = http code
admin_only claims (allowed r) = if is_admin r then allowed claims else http 403

-- `_require_admin`
unfoldable pub require_admin : Option JwtClaims → Checked JwtClaims
unfolding admin_only validated_role
require_admin none = http 401
require_admin (some claims) = admin_only claims (validated_role claims)
