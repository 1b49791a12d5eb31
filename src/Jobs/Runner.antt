-- ===== src/Jobs/Runner.antt =====
-- `run_workflow` of apps/edr/graph/runner.py and `_run_report_job` of apps/edr/app.py. The nodes are
-- an argument: each is any code over the state of the report and the job's world.
use decision_center.Base.{
  Bool, true, false, Option, none, some, String, List, [], ◌∷◌, ℕ, suc, str_eq, if◌then◌else◌,
}
use decision_center.Base.Effect.{pure, throw, modify, try_except, ◌>>=◌, ◌>>◌}
use decision_center.Review.Store.{AuditRow}
use decision_center.Jobs.{
  JobStatus, failed, timeout, cancelled, JobRow, mark_report_job_running,
  mark_report_job_stage_complete, complete_report_job, fail_report_job,
}
use decision_center.Jobs.Service.{
  JobExc, timeout_error, cancelled_error, http_error, failure, Exec, call, edit_jobs,
  get_report_job, get_audit,
}

-- What the runner reads of a `DecisionState`.
pub record RunState : Type 0 where
  pub request_id : String
  pub quality_gate : Option String
  pub markdown_report_status : Option String

pub record Node : Type 0 where
  pub stage : String
  pub run : RunState → Exec RunState

pub data StageEvent : Type 0 where
  starts fails ends : StageEvent

abbrev pub StageEventCallback : Type 0
StageEventCallback = StageEvent → String → ℕ → Exec Unit

-- if on_stage_event is not None: await on_stage_event(...)
abbrev pub notify : Option StageEventCallback → StageEvent → String → ℕ → Exec Unit
notify none event stage index = pure tt
notify (some on_stage_event) event stage index = on_stage_event event stage index

-- except ...: the event, then `raise`
abbrev pub reraise : {A : Type 0} → Exec Unit → JobExc → Exec A
reraise event e = do event; throw e

-- The loop of `run_workflow` from the node at an index on.
unfoldable pub run_from : Option StageEventCallback → ℕ → List Node → RunState → Exec RunState
run_from callback index [] s = pure s
run_from callback index (n ∷ ns) s = do
  notify callback starts n.stage index
  s' ← try_except (n.run s) (reraise (notify callback fails n.stage index))
  notify callback ends n.stage index
  run_from callback (suc index) ns s'

unfoldable pub run_workflow : List Node → RunState → Option StageEventCallback → Exec RunState
run_workflow nodes s callback = run_from callback 0 nodes s

abbrev pub is_cancelled_status : JobStatus → Bool
is_cancelled_status cancelled = true
is_cancelled_status _ = false

abbrev pub is_cancelled : Option JobRow → Bool
is_cancelled none = false
is_cancelled (some j) = is_cancelled_status j.status

-- The test on the job that was read: a cancelled one ends the run.
unfoldable pub unless_cancelled : String → String → ℕ → Option JobRow → Exec Unit
unless_cancelled id stage index job =
    if is_cancelled job
    then throw cancelled_error
    else edit_jobs (mark_report_job_running id stage (suc index))

unfoldable pub begin_stage : String → String → ℕ → Exec Unit
begin_stage id stage index = do job ← get_report_job id; unless_cancelled id stage index job

abbrev pub record_event : String → StageEvent → String → ℕ → Exec Unit
record_event id starts stage index = begin_stage id stage index
record_event id fails stage index = pure tt
record_event id ends stage index = edit_jobs (mark_report_job_stage_complete id stage (suc index))

-- `nonlocal current_stage; current_stage = stage`
unfoldable pub set_stage : String → Exec Unit
set_stage stage = modify (λ w. record w { stage = some stage })

-- The closure `on_stage_event`.
unfoldable pub on_stage_event : String → StageEventCallback
on_stage_event id event stage index = do set_stage stage; record_event id event stage index

-- `outputs.get(...) == text`
abbrev pub equals : Option String → String → Bool
equals none text = false
equals (some value) text = str_eq value text

-- `_derive_status`
unfoldable pub derive_status : RunState → String
derive_status s =
    if equals s.quality_gate "passed"
    then (if equals s.markdown_report_status "generated" then "ready" else "in_progress")
    else if equals s.quality_gate "failed"
    then "failed"
    else "in_progress"

-- `outputs.get("quality_gate", "needs_review")`
abbrev pub gate_or_default : Option String → Option String
gate_or_default none = some "needs_review"
gate_or_default (some gate) = some gate

-- The end of the job once the workflow has returned.
unfoldable pub finish : String → RunState → Option AuditRow → Exec Unit
finish id s none =
    edit_jobs (fail_report_job id failed (some "node_15_save_audit") "PersistenceError")
finish id s (some audit) =
    edit_jobs (complete_report_job id (derive_status s) (gate_or_default s.quality_gate))

-- The body of the `try` of `_run_report_job`.
unfoldable pub attempt_job : List Node → String → RunState → Exec Unit
attempt_job nodes id s = do
  result ← run_workflow nodes s (some (on_stage_event id))
  audit ← get_audit result.request_id
  finish id result audit

-- The status and the class name that an exception leaves on the job.
abbrev pub status_for : JobExc → JobStatus
status_for timeout_error = timeout
status_for cancelled_error = cancelled
status_for _ = failed

abbrev pub class_name : JobExc → String
class_name timeout_error = "TimeoutError"
class_name cancelled_error = "CancelledError"
class_name (http_error code) = "HTTPException"
class_name (failure name) = name

unfoldable pub store_failure : String → JobExc → Exec Unit
store_failure id e w = edit_jobs (fail_report_job id (status_for e) w.stage (class_name e)) w

-- The three `except` clauses: only the cancellation is raised again.
unfoldable pub on_exception : String → JobExc → Exec Unit
on_exception id cancelled_error = do store_failure id cancelled_error; throw cancelled_error
on_exception id timeout_error = store_failure id timeout_error
on_exception id (http_error code) = store_failure id (http_error code)
on_exception id (failure name) = store_failure id (failure name)

-- `_run_report_job`
unfoldable pub run_report_job : List Node → String → RunState → Exec Unit
run_report_job nodes id s = do
  call
  set_stage "queued"
  try_except (attempt_job nodes id s) (on_exception id)
