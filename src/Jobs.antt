-- ===== src/Jobs.antt =====
-- The table `report_jobs` of apps/edr/persistence/postgres_store.py: the progress of a job, its end,
-- and the repair after a restart.
pub mod Recovery
pub mod Service
pub mod Runner
pub mod Staging
pub mod Cancel
pub mod Queued
pub mod Status
pub mod Polled
pub mod Present
pub mod Ends
mod Examples
mod RunExamples
use decision_center.Base.{
  Bool, true, false, Option, none, some, String, List, [], ◌∷◌, ℕ, str_eq, if◌then◌else◌, length,
  map, filter_by,
}
use decision_center.Review.Store.{AuditRow, find_audit}

pub data JobStatus : Type 0 where
  queued running completed failed timeout cancelled : JobStatus

-- A row, less its project, its query, its formats and its times.
pub record JobRow : Type 0 where
  pub job_id : String
  pub request_id : String
  pub user_id_hash : String
  pub status : JobStatus
  pub current_node : ℕ
  pub total_nodes : ℕ
  pub current_stage : Option String
  pub stage_status : JobStatus
  pub result_status : Option String
  pub quality_gate_status : Option String
  pub error_class : Option String

-- `REPORT_JOB_TERMINAL_STATES`
abbrev pub is_terminal : JobStatus → Bool
is_terminal queued = false
is_terminal running = false
is_terminal _ = true

-- UPDATE report_jobs SET ... WHERE job_id = $1 [AND status NOT IN (...)]
unfoldable pub update_job : String → (JobRow → JobRow) → List JobRow → List JobRow
update_job id f jobs = map (λ j. if str_eq j.job_id id then f j else j) jobs

abbrev pub unless_terminal : (JobRow → JobRow) → JobRow → JobRow
unless_terminal f j = if is_terminal j.status then j else f j

abbrev pub begun_stage : String → ℕ → JobRow → JobRow
begun_stage stage node j = record j {
  status = running;
  current_stage = some stage;
  current_node = node;
  stage_status = running;
}

unfoldable pub mark_report_job_running : String → String → ℕ → List JobRow → List JobRow
mark_report_job_running id stage node = update_job id (unless_terminal (begun_stage stage node))

abbrev pub stage_done : String → ℕ → JobRow → JobRow
stage_done stage node j = record j {
  current_stage = some stage;
  current_node = node;
  stage_status = completed;
}

unfoldable pub mark_report_job_stage_complete : String → String → ℕ → List JobRow → List JobRow
mark_report_job_stage_complete id stage node =
    update_job id (unless_terminal (stage_done stage node))

-- The two statements that end a job have no condition on its status.
unfoldable pub complete_report_job : String → String → Option String → List JobRow → List JobRow
complete_report_job id result gate = update_job id (λ j. record j {
  status = completed;
  current_node = j.total_nodes;
  current_stage = some "completed";
  stage_status = completed;
  result_status = some result;
  quality_gate_status = gate;
})

abbrev pub failed_as : JobStatus → Option String → String → JobRow → JobRow
failed_as status stage error j = record j {
  status = status;
  current_stage = stage;
  stage_status = status;
  error_class = some error;
}

unfoldable pub fail_report_job :
    String → JobStatus → Option String → String → List JobRow → List JobRow
fail_report_job id status stage error = update_job id (failed_as status stage error)

-- CASE WHEN a.quality_gate_status = ...
abbrev pub result_of_gate : Option String → String
result_of_gate none = "staging"
result_of_gate (some gate) =
    if str_eq gate "failed"
    then "failed"
    else if str_eq gate "needs_review"
    then "needs_review"
    else "staging"

-- The first statement of the repair: a job in flight with an audit row.
abbrev pub preserve : Option AuditRow → JobRow → JobRow
preserve none j = j
preserve (some a) j = record j {
  status = completed;
  current_node = j.total_nodes;
  current_stage = some "completed";
  stage_status = completed;
  result_status = some (result_of_gate a.quality_gate_status);
  quality_gate_status = a.quality_gate_status;
}

unfoldable pub recover_completed : List AuditRow → List JobRow → List JobRow
recover_completed audits jobs =
    map (λ j. unless_terminal (preserve (find_audit j.request_id audits)) j) jobs

abbrev pub or_stage : String → Option String → Option String
or_stage s none = some s
or_stage s (some stage) = some stage

-- The second: a job in flight without one.
abbrev pub lose : Option AuditRow → JobRow → JobRow
lose (some a) j = j
lose none j = record j {
  status = failed;
  current_stage = or_stage "app_restart_or_worker_lost" j.current_stage;
  stage_status = failed;
  error_class = some "WorkerLost";
}

unfoldable pub recover_failed : List AuditRow → List JobRow → List JobRow
recover_failed audits jobs =
    map (λ j. unless_terminal (lose (find_audit j.request_id audits)) j) jobs

-- `recover_report_jobs_after_restart`, without its two counts
unfoldable pub recover_report_jobs : List AuditRow → List JobRow → List JobRow
recover_report_jobs audits jobs = recover_failed audits (recover_completed audits jobs)
