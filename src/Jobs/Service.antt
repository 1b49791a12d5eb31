-- ===== src/Jobs/Service.antt =====
-- The store and the memory that a report job touches, and the calls it makes. `faults` says, call by
-- call, whether the call goes through or which exception ends it: an error of the service, the
-- time limit or the cancellation of the task. A call that raises changes nothing.
use decision_center.Base.{Option, none, some, String, List, [], ◌∷◌, ℕ, str_eq, if◌then◌else◌}
use decision_center.Base.Effect.{Result, done, raised, Effect, gets, modify, ◌>>◌}
use decision_center.Base.Dict.{Dict}
use decision_center.Review.Store.{AuditRow, find_audit}
use decision_center.Jobs.{queued, JobRow}

-- `failure` is any other exception, by the name of its class.
pub data JobExc : Type 0 where
  timeout_error cancelled_error : JobExc
  http_error : ℕ → JobExc
  failure : String → JobExc

pub record JobWorld : Type 0 where
  pub jobs : List JobRow
  pub audits : List AuditRow
  -- the variable `current_stage` of the runner's closure
  pub stage : Option String
  -- `_REPORT_JOB_TASKS`, by the job ids, and the tasks that were asked to stop
  pub tasks : List String
  pub cancel_requested : List String
  -- `source_mappings`: the status by project code
  pub mappings : Dict String String
  pub faults : List (Option JobExc)

abbrev pub Exec : Type 0 → Type 0
Exec A = Effect JobWorld JobExc A

abbrev pub after_call : List (Option JobExc) → JobWorld → Result JobExc Unit × JobWorld
after_call [] w = (done tt, w)
after_call (none ∷ rest) w = (done tt, record w { faults = rest })
after_call (some e ∷ rest) w = (raised e, record w { faults = rest })

-- One call to the store.
unfoldable pub call : Exec Unit
call w = after_call w.faults w

unfoldable pub edit_jobs : (List JobRow → List JobRow) → Exec Unit
edit_jobs f = do call; modify (λ w. record w { jobs = f w.jobs })

-- SELECT * FROM report_jobs WHERE job_id = $1
unfoldable pub find_job : String → List JobRow → Option JobRow
find_job id [] = none
find_job id (j ∷ jobs) = let rest = find_job id jobs in if str_eq j.job_id id then some j else rest

unfoldable pub get_report_job : String → Exec (Option JobRow)
get_report_job id = do call; gets (λ w. find_job id w.jobs)

unfoldable pub get_audit : String → Exec (Option AuditRow)
get_audit rid = do call; gets (λ w. find_audit rid w.audits)

abbrev pub queued_job : String → String → String → ℕ → JobRow
queued_job id rid user total = record {
  job_id = id;
  request_id = rid;
  user_id_hash = user;
  status = queued;
  current_node = 0;
  total_nodes = total;
  current_stage = some "queued";
  stage_status = queued;
  result_status = none;
  quality_gate_status = none;
  error_class = none;
}

-- ON CONFLICT (job_id) DO UPDATE SET ...
abbrev pub requeued : ℕ → JobRow → JobRow
requeued total j = record j {
  status = queued;
  current_node = 0;
  total_nodes = total;
  current_stage = some "queued";
  stage_status = queued;
  error_class = none;
}

-- `insert_report_job`
unfoldable pub insert_report_job : String → String → String → ℕ → List JobRow → List JobRow
insert_report_job id rid user total [] = queued_job id rid user total ∷ []
insert_report_job id rid user total (j ∷ jobs) =
    if str_eq j.job_id id
    then requeued total j ∷ jobs
    else j ∷ insert_report_job id rid user total jobs
