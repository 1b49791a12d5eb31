-- ===== src/Review/Handlers.antt =====
-- The review endpoints of apps/edr/app.py: approve, reject, request-revision, cancel, and the two
-- admin overrides. A handler is a sequence of service calls and ends in a reply or an exception.
use decision_center.Base.{
  Bool, true, false, ◌&&◌, not, Option, none, some, String, List, str_eq, if◌then◌else◌,
  is_empty_text, ℕ,
}
use decision_center.Rbac.Reviewer.{
  JwtClaims, Checked, allowed, http, require_claims, Action, admin_override, report_cancelled,
  check_reviewer_rbac, require_admin,
}
use decision_center.Review.Store.{
  ReviewState, staging, needs_review, approved, rejected, revision_requested, final, cancelled,
  AuditRow, Decision, EventType, admin_override_approved, admin_override_rejected, AdminEvent,
  ObjectName, Exec, http_error, pure, throw, ◌>>=◌, ◌>>◌, external, init_schema, get_audit,
  insert_review_decision, update_review_state, insert_admin_event,
}
use decision_center.Review.Publish.{PublishStatus, Publication, publish}

-- What the UI shows: `_derive_external_state`
pub data ExternalState : Type 0 where
  in_state : ReviewState → ExternalState
  failed : ExternalState

abbrev pub gate_state : Option String → ExternalState
gate_state none = in_state staging
gate_state (some gate) =
    if str_eq gate "failed"
    then failed
    else if str_eq gate "needs_review"
    then in_state needs_review
    else in_state staging

abbrev pub external_state : Option ReviewState → Option String → ExternalState
external_state (some final) gate = in_state final
external_state (some rejected) gate = in_state rejected
external_state (some approved) gate = in_state approved
external_state (some revision_requested) gate = in_state revision_requested
external_state (some cancelled) gate = in_state cancelled
external_state _ gate = gate_state gate

unfoldable pub derive_external_state : AuditRow → ExternalState
derive_external_state row = external_state row.review_state row.quality_gate_status

-- `_is_terminal_state`
unfoldable pub is_terminal_state : ExternalState → Bool
is_terminal_state failed = true
is_terminal_state (in_state final) = true
is_terminal_state (in_state rejected) = true
is_terminal_state (in_state cancelled) = true
is_terminal_state (in_state _) = false

-- A JSON reply: the action, the new state and, where a handler publishes, how that went.
pub record Reply : Type 0 where
  pub new_state : ReviewState
  pub publish_status : Option PublishStatus

unfoldable pub checked : {A : Type 0} → Checked A → Exec A
checked (allowed a) = pure a
checked (http code) = throw (http_error code)

-- audit is None: 404
unfoldable pub found_audit : Option AuditRow → Exec AuditRow
found_audit none = throw (http_error 404)
found_audit (some row) = pure row

abbrev pub blocks_approval : Option ReviewState → Bool
blocks_approval (some final) = true
blocks_approval (some rejected) = true
blocks_approval _ = false

abbrev pub is_final : Option ReviewState → Bool
is_final (some final) = true
is_final _ = false

abbrev pub not_cancellable : ExternalState → Bool
not_cancellable (in_state final) = true
not_cancellable (in_state rejected) = true
not_cancellable (in_state cancelled) = true
not_cancellable _ = false

abbrev pub in_approval_queue : ExternalState → Bool
in_approval_queue (in_state staging) = true
in_approval_queue (in_state needs_review) = true
in_approval_queue _ = false

-- if test: raise HTTPException(status_code=code)
unfoldable pub refuse_if : Bool → ℕ → Exec Unit
refuse_if true code = throw (http_error code)
refuse_if false code = pure tt

unfoldable pub load_audit : String → Exec AuditRow
load_audit rid = do init_schema; audit ← get_audit rid; found_audit audit

-- The job row is read here and serves only where the audit row is missing.
abbrev pub get_report_job : Exec Unit
get_report_job = external

-- The comment of an `admin_override` is mandatory; `strip` is Python's.
abbrev pub lacks_comment : (String → String) → Action → Option String → Bool
lacks_comment strip admin_override none = true
lacks_comment strip admin_override (some text) = is_empty_text (strip text)
lacks_comment strip _ comment = false

-- `hash_user_id` is SHA-256, `strip` Python's, `entra` whether Entra is configured.
module _ (hash_user_id : String → String) (strip : String → String)
    (render_log : AuditRow → Decision → List ObjectName → String) (entra : Bool) where
  abbrev pub decision_by : JwtClaims → String → Action → Option String → Option String → Decision
  decision_by claims rid action reason comment = record {
    decided_request = rid;
    reviewer_id_hash = hash_user_id claims.user_id;
    action = action;
    reason = reason;
    comment = comment;
  }

  -- The writes that end both approving handlers.
  unfoldable pub set_and_publish : String → Exec Publication
  set_and_publish rid = do update_review_state rid approved; publish render_log rid

  unfoldable pub approve_and_publish : String → Decision → Exec Publication
  approve_and_publish rid decision = do insert_review_decision decision; set_and_publish rid

  -- The approval of a row, by a caller who passed the role check.
  unfoldable pub approve_row : JwtClaims → Action → String → Option String → AuditRow → Exec Reply
  approve_row claims action rid comment audit = do
    refuse_if (blocks_approval audit.review_state) 409
    publication ← approve_and_publish rid (decision_by claims rid action none comment)
    pure (record { new_state = approved; publish_status = some publication.status })

  -- POST /reports/staging/{request_id}/approve
  unfoldable pub approve_report : Option JwtClaims → String → Option String → Exec Reply
  approve_report caller rid comment = do
    claims ← checked (require_claims caller)
    action ← checked (check_reviewer_rbac claims)
    refuse_if (lacks_comment strip action comment) 400
    audit ← load_audit rid
    approve_row claims action rid comment audit

  -- POST /reports/staging/{request_id}/reject
  unfoldable pub reject_report : Option JwtClaims → String → Option String → Exec Reply
  reject_report caller rid reason = do
    claims ← checked (require_claims caller)
    action ← checked (check_reviewer_rbac claims)
    audit ← load_audit rid
    refuse_if (is_final audit.review_state) 409
    insert_review_decision (decision_by claims rid action reason none)
    update_review_state rid rejected
    pure (record { new_state = rejected; publish_status = none })

  -- POST /reports/staging/{request_id}/request-revision
  unfoldable pub request_revision :
      Option JwtClaims → String → Option String → Option String → Exec Reply
  request_revision caller rid reason comment = do
    claims ← checked (require_claims caller)
    action ← checked (check_reviewer_rbac claims)
    audit ← load_audit rid
    refuse_if (is_final audit.review_state) 409
    insert_review_decision (decision_by claims rid action reason comment)
    update_review_state rid revision_requested
    pure (record { new_state = revision_requested; publish_status = none })

  abbrev pub canceller_hash : JwtClaims → AuditRow → String
  canceller_hash claims audit =
      if is_empty_text claims.user_id then audit.user_id_hash else hash_user_id claims.user_id

  -- The checks and the writes of the cancellation, on the audit row that was read.
  unfoldable pub cancel_row : JwtClaims → String → AuditRow → Exec Reply
  cancel_row claims rid audit = do
    refuse_if (entra && is_empty_text claims.user_id) 401
    refuse_if (entra && not (str_eq (hash_user_id claims.user_id) audit.user_id_hash)) 403
    refuse_if (not_cancellable (derive_external_state audit)) 409
    insert_review_decision (record {
      decided_request = rid;
      reviewer_id_hash = canceller_hash claims audit;
      action = report_cancelled;
      reason = some "Cancelled by requester.";
      comment = none;
    })
    update_review_state rid cancelled
    pure (record { new_state = cancelled; publish_status = none })

  -- DELETE /reports/{request_id}, where no job row stands in for a missing audit row
  unfoldable pub cancel_report : Option JwtClaims → String → Exec Reply
  cancel_report caller rid = do
    claims ← checked (require_claims caller)
    init_schema
    get_report_job
    row ← get_audit rid
    audit ← found_audit row
    cancel_row claims rid audit

  abbrev pub override_event : JwtClaims → String → EventType → AdminEvent
  override_event claims rid kind = record {
    event_type = kind;
    actor_hash = hash_user_id claims.user_id;
    subject = rid;
  }

  -- POST /admin/approvals/{request_id}/override-approve
  unfoldable pub override_approve : Option JwtClaims → String → Option String → Exec Reply
  override_approve caller rid comment = do
    claims ← checked (require_admin caller)
    audit ← load_audit rid
    refuse_if (str_eq (hash_user_id claims.user_id) audit.user_id_hash) 403
    refuse_if (not (in_approval_queue (derive_external_state audit))) 409
    insert_admin_event (override_event claims rid admin_override_approved)
    approve_and_publish rid (decision_by claims rid admin_override none comment)
    pure (record { new_state = approved; publish_status = none })

  -- POST /admin/approvals/{request_id}/override-reject
  unfoldable pub override_reject : Option JwtClaims → String → Option String → Exec Reply
  override_reject caller rid comment = do
    claims ← checked (require_admin caller)
    audit ← load_audit rid
    refuse_if (str_eq (hash_user_id claims.user_id) audit.user_id_hash) 403
    refuse_if (not (in_approval_queue (derive_external_state audit))) 409
    insert_admin_event (override_event claims rid admin_override_rejected)
    insert_review_decision (decision_by claims rid admin_override none comment)
    update_review_state rid rejected
    pure (record { new_state = rejected; publish_status = none })
