-- ===== src/Review/Detail.antt =====
-- `get_report` of apps/edr/app.py: the state of a report and its review history. The columns that
-- no review touches are left out.
use decision_center.Base.{Bool, Option, some, String, List, map}
use decision_center.Rbac.Reviewer.{JwtClaims, Action, require_claims}
use decision_center.Rbac.Access.{check_can_read_own_report}
use decision_center.Review.Store.{AuditRow, Decision, Exec, get_review_decisions, pure, ◌>>=◌, ◌>>◌}
use decision_center.Review.Handlers.{ExternalState, derive_external_state, checked, load_audit}

pub record ReviewDecisionView : Type 0 where
  pub action : Action
  pub reason : Option String
  pub comment : Option String

pub record ReportDetail : Type 0 where
  pub request_id : String
  pub state : ExternalState
  pub quality_gate : Option String
  pub review_decisions : List ReviewDecisionView

abbrev pub view_of : Decision → ReviewDecisionView
view_of d = record { action = d.action; reason = d.reason; comment = d.comment }

abbrev pub detail_of : AuditRow → List Decision → ReportDetail
detail_of a decisions = record {
  request_id = a.request_id;
  state = derive_external_state a;
  quality_gate = a.quality_gate_status;
  review_decisions = map view_of decisions;
}

-- GET /reports/{request_id}
unfoldable pub get_report : (String → String) → Bool → Option JwtClaims → String → Exec ReportDetail
get_report hash_user_id entra caller rid = do
  claims ← checked (require_claims caller)
  audit ← load_audit rid
  checked (check_can_read_own_report hash_user_id entra (some claims) audit.user_id_hash)
  decisions ← get_review_decisions rid
  pure (detail_of audit decisions)
