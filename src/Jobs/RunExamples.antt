-- ===== src/Jobs/RunExamples.antt =====
-- The theorems on the run of a job, on a report with two nodes of which the second fails.
use decision_center.Base.{
  false, true, ◌||◌, Option, none, some, String, List, [], ◌∷◌, ◌≡◌, refl, contains,
}
use decision_center.Base.Effect.{done, raised, pure, throw, modify, gets, try_except, ◌>>=◌}
use decision_center.Rbac.Reviewer.{JwtClaims, require_claims}
use decision_center.Rbac.Access.{check_can_read_report_job}
use decision_center.Review.Store.{AuditRow, find_audit}
use decision_center.Jobs.{
  JobRow, recover_report_jobs, recover_completed, recover_failed, update_job,
  mark_report_job_running, mark_report_job_stage_complete, fail_report_job,
}
use decision_center.Jobs.Service.{
  failure, cancelled_error, JobWorld, Exec, call, edit_jobs, find_job, get_report_job, get_audit,
  queued_job, insert_report_job,
}
use decision_center.Jobs.Runner.{
  Node, run_from, run_workflow, begin_stage, unless_cancelled, set_stage, on_stage_event,
  attempt_job, run_report_job,
}
use decision_center.Jobs.Staging.{
  check_http, raise_if, cancel_task, cancel_job, cancel_found, cancel_report, initial_state,
  enforce_complete_source_mapping, ReportRequest, accepted, stage_report, run_or_queue,
  queue_report, schedule_report_job,
}
use decision_center.Jobs.Present.{Ended}
use decision_center.Jobs.Ends.{started, reported, rest_of, run_report_job-Ended}
use decision_center.Jobs.Cancel.{Cancelled, cancel_report-run_from}
use decision_center.Jobs.Status.{
  StatusResponse, job_status_response, job_external_state, status_of, get_report_status,
}
use decision_center.Jobs.Polled.{get_report_status-has_ended}
use decision_center.Jobs.Queued.{
  lets_through, verdict, fails_within, enforce_complete_source_mapping-lets_through, Accepted,
  stage_report-Accepted,
}

abbrev draft : Node
draft = record { stage = "node_12_draft_json"; run = λ s w. (done s, w) }

abbrev broken_gate : Node
broken_gate = record {
  stage = "node_13_quality_gate";
  run = λ s w. (raised (failure "ValueError"), w);
}

abbrev two_nodes : List Node
two_nodes = draft ∷ broken_gate ∷ []

abbrev idle : List JobRow → JobWorld
idle jobs = record {
  jobs = jobs;
  audits = [];
  stage = none;
  tasks = "r-1" ∷ [];
  cancel_requested = [];
  mappings = ("P1", "partial") ∷ [];
  faults = [];
}

abbrev waiting : JobWorld
waiting = idle (queued_job "r-1" "r-1" "bob" 18 ∷ [])

run_report_job-Ended_example :
    Ended "r-1" (run_report_job two_nodes "r-1" (initial_state "r-1") waiting).1
    × ((run_report_job two_nodes "r-1" (initial_state "r-1") waiting).0
        ≡ reported (attempt_job two_nodes "r-1" (initial_state "r-1") (started waiting)).0)
unfolding find_job attempt_job run_workflow run_from on_stage_event set_stage modify begin_stage
    get_report_job gets unless_cancelled edit_jobs call update_job mark_report_job_running
    mark_report_job_stage_complete throw try_except ◌>>=◌ pure
run_report_job-Ended_example =
    run_report_job-Ended "r-1" two_nodes (initial_state "r-1") waiting
      (λ s w h. h, (λ s w h. h, tt)) refl refl refl

abbrev plain_hash : String → String
plain_hash text = text

abbrev no_audit_row : JwtClaims → String → AuditRow → Exec Unit
no_audit_row claims rid audit w = (done tt, w)

abbrev owner : Option JwtClaims
owner = some (record { user_id = "bob"; role = some "finance" })

abbrev after_cancel : JobWorld
after_cancel = (cancel_report plain_hash false no_audit_row owner "r-1" waiting).1

cancel_report-run_from_example :
    Cancelled "r-1" after_cancel
    × (run_from (some (on_stage_event "r-1")) 0 (draft ∷ []) (initial_state "r-1") after_cancel ≡ (
      raised cancelled_error,
      record after_cancel {
        stage = some "node_12_draft_json";
        faults = rest_of after_cancel.faults;
      },
    ))
unfolding find_audit cancel_report check_http require_claims pure ◌>>=◌ call get_report_job
    get_audit gets cancel_found find_job cancel_job check_can_read_report_job raise_if cancel_task
    modify edit_jobs fail_report_job update_job contains
cancel_report-run_from_example =
    cancel_report-run_from plain_hash false no_audit_row "r-1" owner waiting 0 draft []
      (initial_state "r-1") refl refl refl

-- The third call to the store fails.
abbrev faulty : JobWorld
faulty = record waiting { faults = none ∷ none ∷ some (failure "OSError") ∷ [] }

enforce_complete_source_mapping-lets_through_example :
    (enforce_complete_source_mapping (some "P1") faulty).0
    ≡ verdict (lets_through (some "P1") faulty || fails_within 3 faulty.faults)
enforce_complete_source_mapping-lets_through_example =
    enforce_complete_source_mapping-lets_through (some "P1") faulty (tt, (tt, (tt, tt)))

abbrev asked : ReportRequest
asked = record { requested_by = "alice"; project_code = none }

stage_report-Accepted_example :
    Accepted plain_hash two_nodes owner asked "r-2"
      (accepted "r-2")
      (stage_report plain_hash two_nodes owner asked false "r-2" waiting).1
unfolding find_job stage_report enforce_complete_source_mapping pure ◌>>=◌ run_or_queue queue_report
    call edit_jobs modify schedule_report_job insert_report_job
stage_report-Accepted_example =
    stage_report-Accepted plain_hash two_nodes owner asked "r-2" waiting (accepted "r-2") refl refl

abbrev restarted : JobWorld
restarted = idle (recover_report_jobs [] waiting.jobs)

abbrev lost_reply : StatusResponse
lost_reply = record {
  request_id = "r-1";
  state = "failed";
  quality_gate = none;
  total_nodes = 18;
  current_node = 0;
  has_ended = true;
  current_stage = some "queued";
  stage_status = some "failed";
  error_class = some "WorkerLost";
}

get_report_status-has_ended_example : lost_reply.has_ended ≡ true
unfolding get_report_status check_http require_claims pure ◌>>=◌ call get_report_job get_audit gets
    find_job find_audit status_of check_can_read_report_job job_status_response job_external_state
    recover_report_jobs recover_completed recover_failed
get_report_status-has_ended_example =
    get_report_status-has_ended plain_hash false 18 owner "r-1" [] waiting.jobs restarted lost_reply
      refl refl
