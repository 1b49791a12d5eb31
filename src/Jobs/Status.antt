-- ===== src/Jobs/Status.antt =====
-- `get_report_status` of apps/edr/app.py: what the polling loop is told of a report.
use decision_center.Base.{
  Bool, true, false, Option, none, some, String, [], ◌∷◌, ℕ, if◌then◌else◌, contains, is_empty_text,
  ◌==◌,
}
use decision_center.Base.Effect.{pure, throw, ◌>>=◌, ◌>>◌}
use decision_center.Rbac.Reviewer.{JwtClaims, require_claims}
use decision_center.Rbac.Access.{check_can_read_own_report, check_can_read_report_job}
use decision_center.Review.Store.{
  ReviewState, staging, needs_review, approved, rejected, revision_requested, final, cancelled,
  AuditRow,
}
use decision_center.Review.Handlers.{ExternalState, in_state, failed, derive_external_state}
use decision_center.Jobs.{JobStatus, JobRow, is_terminal}
use decision_center.Jobs.Service.{http_error, Exec, call, get_report_job, get_audit}
use decision_center.Jobs.Staging.{check_http}

-- The value of a status column.
abbrev pub status_text : JobStatus → String
status_text JobStatus.queued = "queued"
status_text JobStatus.running = "running"
status_text JobStatus.completed = "completed"
status_text JobStatus.failed = "failed"
status_text JobStatus.timeout = "timeout"
status_text JobStatus.cancelled = "cancelled"

abbrev pub result_or_staging : Option String → String
result_or_staging none = "staging"
result_or_staging (some result) =
    if contains result ("staging" ∷ "needs_review" ∷ "failed" ∷ []) then result else "staging"

abbrev pub state_of_status : JobStatus → Option String → String
state_of_status JobStatus.timeout result = "timed_out"
state_of_status JobStatus.completed result = result_or_staging result
state_of_status status result = status_text status

-- `_job_external_state`
unfoldable pub job_external_state : JobRow → String
job_external_state j = state_of_status j.status j.result_status

pub record StatusResponse : Type 0 where
  pub request_id : String
  pub state : String
  pub quality_gate : Option String
  pub total_nodes : ℕ
  pub current_node : ℕ
  pub has_ended : Bool
  pub current_stage : Option String
  pub stage_status : Option String
  pub error_class : Option String

-- `a or b` of a text and of a number
abbrev pub or_text : String → String → String
or_text a b = if is_empty_text a then b else a

abbrev pub or_count : ℕ → ℕ → ℕ
or_count n m = if n == 0 then m else n

abbrev pub review_text : ReviewState → String
review_text staging = "staging"
review_text needs_review = "needs_review"
review_text approved = "approved"
review_text rejected = "rejected"
review_text revision_requested = "revision_requested"
review_text final = "final"
review_text cancelled = "cancelled"

abbrev pub external_text : ExternalState → String
external_text (in_state s) = review_text s
external_text failed = "failed"

module _ (node_count : ℕ) where
  -- `_job_status_response`
  unfoldable pub job_status_response : JobRow → StatusResponse
  job_status_response j = record {
    request_id = or_text j.request_id j.job_id;
    state = job_external_state j;
    quality_gate = j.quality_gate_status;
    total_nodes = or_count j.total_nodes node_count;
    current_node = j.current_node;
    has_ended = is_terminal j.status;
    current_stage = j.current_stage;
    stage_status = some (status_text j.stage_status);
    error_class = j.error_class;
  }

  -- The reply once the audit row is there.
  unfoldable pub audit_status_response : AuditRow → StatusResponse
  audit_status_response a = record {
    request_id = a.request_id;
    state = external_text (derive_external_state a);
    quality_gate = a.quality_gate_status;
    total_nodes = node_count;
    current_node = node_count;
    has_ended = true;
    current_stage = some "completed";
    stage_status = some "completed";
    error_class = none;
  }

abbrev pub is_completed : JobStatus → Bool
is_completed JobStatus.completed = true
is_completed _ = false

module _ (hash_user_id : String → String) (entra : Bool) (node_count : ℕ) where
  unfoldable pub status_of_audit : JwtClaims → Option AuditRow → Exec StatusResponse
  status_of_audit claims none = throw (http_error 404)
  status_of_audit claims (some a) = do
    check_http (check_can_read_own_report hash_user_id entra (some claims) a.user_id_hash)
    pure (audit_status_response node_count a)

  -- A job that is completed hands over to its audit row, if that is there.
  abbrev pub hand_over : JwtClaims → JobRow → Option AuditRow → Exec StatusResponse
  hand_over claims j none = pure (job_status_response node_count j)
  hand_over claims j (some a) =
      if is_completed j.status
      then status_of_audit claims (some a)
      else pure (job_status_response node_count j)

  unfoldable pub status_of : JwtClaims → Option JobRow → Option AuditRow → Exec StatusResponse
  status_of claims none audit = status_of_audit claims audit
  status_of claims (some j) audit = do
    check_http (check_can_read_report_job hash_user_id entra (some claims) j.user_id_hash)
    hand_over claims j audit

  -- GET /reports/{request_id}/status
  unfoldable pub get_report_status : Option JwtClaims → String → Exec StatusResponse
  get_report_status caller rid = do
    claims ← check_http (require_claims caller)
    call
    job ← get_report_job rid
    audit ← get_audit rid
    status_of claims job audit
