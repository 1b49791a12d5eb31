-- ===== src/Review/Examples.antt =====
-- The theorems on the review, on one report, its reviewer and a stranger.
use decision_center.Base.{
  true, false, Option, none, some, String, List, [], ◌∷◌, ◌≡◌, ◌≢◌, refl, eq_iff,
}
use decision_center.Base.Dict.{lookup, string_key}
use decision_center.Rbac.{role_permissions, role_of, find_role}
use decision_center.Rbac.Reviewer.{
  JwtClaims, Action, check_reviewer_rbac, validated_role, reviewer_action, role_from_text,
}
use decision_center.Review.Store.{
  ReviewState, staging, final, AuditRow, Decision, ObjectName, World, object_key, find_audit,
}
use decision_center.Review.Rows.{state_of}
use decision_center.Review.Publish.{log_name}
use decision_center.Review.Handlers.{approve_report}
use decision_center.Review.Machine.{Trail, Request, serve, serve-Trail}
use decision_center.Review.Guarantees.{serve-final, serve-KeepsFinal, serve_unreviewed}
use decision_center.Review.Archive.{calm}
use decision_center.Review.Success.{ApprovedBy, approve_report-ApprovedBy}

abbrev hash_id : String → String
hash_id s = s

abbrev log_of : AuditRow → Decision → List ObjectName → String
log_of row d names = d.decided_request

abbrev reviewer : JwtClaims
reviewer = record { user_id = "ada"; role = some "finance" }

abbrev stranger : JwtClaims
stranger = record { user_id = "eve"; role = some "auditor" }

abbrev report_row : ReviewState → AuditRow
report_row s = record {
  request_id = "r-1";
  user_id_hash = "bob";
  quality_gate_status = some "passed";
  review_state = some s;
}

-- The report with its staged draft; the second service call fails.
abbrev staged_world : World
staged_world = record {
  audits = report_row staging ∷ [];
  decisions = [];
  events = [];
  bucket = (("staging", ("r-1", "executive-decision-report.md")), "draft") ∷ [];
  faults = false ∷ true ∷ [];
}

abbrev final_world : World
final_world = record {
  audits = report_row final ∷ [];
  decisions = [];
  events = [];
  bucket = (("final", ("r-1", "executive-decision-report.md")), "report") ∷ [];
  faults = [];
}

abbrev busy_day : List (Option JwtClaims × Request)
busy_day =
    (some stranger, Request.approve "r-1" none)
    ∷ (some reviewer, Request.reject "r-1" (some "late"))
    ∷ (some reviewer, Request.approve "r-1" none)
    ∷ (none, Request.cancel "r-1")
    ∷ []

serve-Trail_example :
    Trail "r-1" busy_day
      (state_of "r-1" staged_world.audits)
      (state_of "r-1" (serve hash_id hash_id log_of true busy_day staged_world).audits)
serve-Trail_example = serve-Trail hash_id hash_id log_of true busy_day "r-1" staged_world

serve-final_example :
    state_of "r-1" (serve hash_id hash_id log_of true busy_day final_world).audits ≡ some final
unfolding find_audit
serve-final_example = serve-final hash_id hash_id log_of true busy_day "r-1" final_world refl

report_is_not_log : "executive-decision-report.md" ≢ log_name
report_is_not_log e = cc ((eq_iff "executive-decision-report.md" log_name).1 e)

serve-KeepsFinal_example :
    lookup
      ("final", ("r-1", "executive-decision-report.md"))
      (serve hash_id hash_id log_of true busy_day final_world).bucket
    ≡ some "report"
unfolding lookup
serve-KeepsFinal_example =
    serve-KeepsFinal hash_id hash_id log_of true busy_day final_world "r-1"
      "executive-decision-report.md" "report" report_is_not_log refl

serve_unreviewed_example :
    (serve hash_id hash_id log_of true
      ((some stranger, Request.approve "r-1" none) ∷ [])
      staged_world).bucket
    ≡ staged_world.bucket
unfolding check_reviewer_rbac validated_role reviewer_action role_from_text role_of find_role
    role_permissions
serve_unreviewed_example =
    serve_unreviewed hash_id hash_id log_of true ((some stranger, Request.approve "r-1" none) ∷ [])
      staged_world (refl, tt)

approve_report-ApprovedBy_example :
    ApprovedBy hash_id hash_id log_of true reviewer Action.approve "r-1" none staged_world
      (approve_report hash_id hash_id log_of true (some reviewer) "r-1" none (calm staged_world))
unfolding check_reviewer_rbac validated_role reviewer_action role_from_text role_of find_role
    role_permissions find_audit
approve_report-ApprovedBy_example =
    approve_report-ApprovedBy hash_id hash_id log_of true reviewer Action.approve "r-1" none
      (report_row staging) staged_world refl refl refl refl
