-- ===== src/Jobs/Staging.antt =====
-- `stage_report` and the job branch of `cancel_report` of apps/edr/app.py, with the synchronous run.
-- `hash_user_id` is auth/hashing.py's and `entra` says whether the identity provider is configured.
use decision_center.Base.{
  Bool, false, Option, none, some, String, List, ◌∷◌, ℕ, str_eq, if◌then◌else◌, contains, is_empty,
  is_empty_text, length,
}
use decision_center.Base.Dict.{lookup, string_key}
use decision_center.Base.Effect.{pure, throw, modify, gets, try_except, ◌>>=◌, ◌>>◌}
use decision_center.Rbac.Reviewer.{JwtClaims, Checked, allowed, http, require_claims}
use decision_center.Rbac.Access.{check_can_read_report_job}
use decision_center.Review.Store.{AuditRow}
use decision_center.Jobs.{cancelled, JobRow, is_terminal, fail_report_job}
use decision_center.Jobs.Service.{
  JobExc, timeout_error, cancelled_error, http_error, failure, JobWorld, Exec, call, edit_jobs,
  get_report_job, get_audit, insert_report_job,
}
use decision_center.Jobs.Runner.{RunState, Node, run_workflow, derive_status, gate_or_default}

-- An HTTPException in the reply's code.
unfoldable pub check_http : {A : Type 0} → Checked A → Exec A
check_http (allowed a) = pure a
check_http (http code) = throw (http_error code)

unfoldable pub raise_if : Bool → ℕ → Exec Unit
raise_if test code = if test then throw (http_error code) else pure tt

abbrev pub has_complete_mapping : Option String → Bool
has_complete_mapping none = false
has_complete_mapping (some status) = str_eq status "complete"

-- The project's row, read once the table has any.
unfoldable pub require_complete : String → Exec Unit
require_complete code = do
  call
  status ← gets (λ w. lookup code w.mappings)
  if has_complete_mapping status then pure tt else throw (http_error 422)

unfoldable pub check_mapping : String → Exec Unit
check_mapping code = do
  call
  call
  unseeded ← gets (λ w. is_empty w.mappings)
  if unseeded then pure tt else require_complete code

-- `except HTTPException: raise`, `except Exception: pass`; a cancellation is no `Exception`
unfoldable pub allow_unless_http : JobExc → Exec Unit
allow_unless_http (http_error code) = throw (http_error code)
allow_unless_http cancelled_error = throw cancelled_error
allow_unless_http timeout_error = pure tt
allow_unless_http (failure name) = pure tt

-- `_enforce_complete_source_mapping`
unfoldable pub enforce_complete_source_mapping : Option String → Exec Unit
enforce_complete_source_mapping none = pure tt
enforce_complete_source_mapping (some code) =
    if is_empty_text code then pure tt else try_except (check_mapping code) allow_unless_http

-- The fields of `ReportRequest` and the state that `_build_decision_state` makes of them, as far as
-- the endpoint reads them.
pub record ReportRequest : Type 0 where
  pub requested_by : String
  pub project_code : Option String

abbrev pub initial_state : String → RunState
initial_state rid = record { request_id = rid; quality_gate = none; markdown_report_status = none }

pub data StageReply : Type 0 where
  -- `ReportJobResponse`, by its job id
  accepted : String → StageReply
  -- the dict of the synchronous run: request, status and gate
  report : String → String → Option String → StageReply

-- The clauses of `_run_report_sync`; RbacDeniedError is one of the failures.
unfoldable pub sync_error : JobExc → Exec RunState
sync_error timeout_error = throw (http_error 504)
sync_error cancelled_error = throw cancelled_error
sync_error (http_error code) = throw (http_error code)
sync_error (failure name) =
    if str_eq name "RbacDeniedError" then throw (http_error 403) else throw (failure name)

-- `_run_report_sync`
unfoldable pub run_report_sync : List Node → String → Exec StageReply
run_report_sync nodes rid = do
  result ← try_except (run_workflow nodes (initial_state rid) none) sync_error
  pure (report result.request_id (derive_status result) (gate_or_default result.quality_gate))

-- `(claims.user_id if claims and claims.user_id else None) or request.user_id`
abbrev pub effective_user : Option JwtClaims → ReportRequest → String
effective_user none request = request.requested_by
effective_user (some claims) request =
    if is_empty_text claims.user_id then request.requested_by else claims.user_id

-- `_schedule_report_job`: the task is kept under the job's id and runs on its own.
unfoldable pub schedule_report_job : String → Exec Unit
schedule_report_job id = modify (λ w. record w { tasks = id ∷ w.tasks })

abbrev pub stop_task : String → JobWorld → JobWorld
stop_task id w =
    if contains id w.tasks then record w { cancel_requested = id ∷ w.cancel_requested } else w

-- `_REPORT_JOB_TASKS.get(request_id)`, then `task.cancel()`
unfoldable pub cancel_task : String → Exec Unit
cancel_task id = modify (stop_task id)

module _ (hash_user_id : String → String) where
  -- The asynchronous half of `stage_report`, from the store on.
  unfoldable pub queue_report : List Node → String → String → Exec StageReply
  queue_report nodes rid user = do
    call
    edit_jobs (insert_report_job rid rid (hash_user_id user) (length nodes))
    schedule_report_job rid
    pure (accepted rid)

  unfoldable pub run_or_queue : List Node → String → Bool → String → Exec StageReply
  run_or_queue nodes user sync rid =
      if sync then run_report_sync nodes rid else queue_report nodes rid user

  -- POST /reports/staging; `rid` is the new uuid
  unfoldable pub stage_report :
      List Node → Option JwtClaims → ReportRequest → Bool → String → Exec StageReply
  stage_report nodes caller request sync rid = do
    enforce_complete_source_mapping request.project_code
    run_or_queue nodes (effective_user caller request) sync rid

module _ (hash_user_id : String → String) (entra : Bool)
    (cancel_row : JwtClaims → String → AuditRow → Exec Unit) where
  unfoldable pub cancel_job : JwtClaims → String → JobRow → Exec Unit
  cancel_job claims rid job = do
    check_http (check_can_read_report_job hash_user_id entra (some claims) job.user_id_hash)
    raise_if (is_terminal job.status) 409
    cancel_task rid
    edit_jobs (fail_report_job rid cancelled job.current_stage "Cancelled")

  unfoldable pub cancel_found : JwtClaims → String → Option JobRow → Option AuditRow → Exec Unit
  cancel_found claims rid job (some audit) = cancel_row claims rid audit
  cancel_found claims rid none none = throw (http_error 404)
  cancel_found claims rid (some job) none = cancel_job claims rid job

  -- DELETE /reports/{request_id}; `cancel_row` is the branch on the audit row
  unfoldable pub cancel_report : Option JwtClaims → String → Exec Unit
  cancel_report caller rid = do
    claims ← check_http (require_claims caller)
    call
    job ← get_report_job rid
    audit ← get_audit rid
    cancel_found claims rid job audit
