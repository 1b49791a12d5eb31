-- ===== src/Rbac/Examples.antt =====
-- The read checks for a finance user and a report of somebody else.
use decision_center.Base.{true, some, String, ◌≡◌, ◌↔◌}
use decision_center.Rbac.Reviewer.{JwtClaims, validated_role}
use decision_center.Rbac.Access.{
  check_can_read_own_report, check_can_read_report_job, check_can_read_report_content,
}
use decision_center.Rbac.Readers.{
  MayRead, role_only, read_checks_iff, check_can_read_report_content-role_only,
}
use decision_center.Rbac.Reviewer.{allowed}

abbrev plain_hash : String → String
plain_hash text = text

abbrev finance_user : JwtClaims
finance_user = record { user_id = "bob"; role = some "finance" }

read_checks_iff_example :
    ((check_can_read_own_report plain_hash true (some finance_user) "alice" ≡ allowed tt)
      ↔ MayRead plain_hash (some finance_user) "alice")
    × ((check_can_read_report_job plain_hash true (some finance_user) "alice" ≡ allowed tt)
        ↔ MayRead plain_hash (some finance_user) "alice")
read_checks_iff_example = read_checks_iff plain_hash (some finance_user) "alice"

check_can_read_report_content-role_only_example :
    check_can_read_report_content plain_hash true finance_user "alice"
    ≡ role_only (validated_role finance_user)
check_can_read_report_content-role_only_example =
    check_can_read_report_content-role_only plain_hash true finance_user "alice"
