-- ===== src/Jobs/Examples.antt =====
-- The theorems on report jobs, on one that was lost, one whose report was stored and one that was
-- cancelled.
use decision_center.Base.{true, none, some, String, List, [], ◌∷◌, ◌≡◌, All}
use decision_center.Review.Store.{ReviewState, AuditRow}
use decision_center.Jobs.{JobStatus, JobRow, is_terminal, recover_report_jobs}
use decision_center.Jobs.Recovery.{
  recover_report_jobs-twice, Mark, mark_all, ended_jobs, mark_all-ended_jobs,
}

abbrev job : String → JobStatus → JobRow
job id status = record {
  job_id = id;
  request_id = id;
  user_id_hash = "bob";
  status = status;
  current_node = 4;
  total_nodes = 18;
  current_stage = some "retrieval";
  stage_status = status;
  result_status = none;
  quality_gate_status = none;
  error_class = none;
}

abbrev three_jobs : List JobRow
three_jobs =
    job "r-1" JobStatus.running ∷ job "r-2" JobStatus.running ∷ job "r-3" JobStatus.cancelled ∷ []

abbrev stored : List AuditRow
stored =
    record {
      request_id = "r-2";
      user_id_hash = "bob";
      quality_gate_status = some "passed";
      review_state = some ReviewState.staging;
    }
    ∷ []

recover_report_jobs-twice_example :
    All (λ j. is_terminal j.status ≡ true) (recover_report_jobs stored three_jobs)
    × (recover_report_jobs stored (recover_report_jobs stored three_jobs)
        ≡ recover_report_jobs stored three_jobs)
recover_report_jobs-twice_example = recover_report_jobs-twice stored three_jobs

abbrev late_marks : List Mark
late_marks = Mark.begins "r-3" "draft" 12 ∷ Mark.completes "r-3" "draft" 12 ∷ []

mark_all-ended_jobs_example : ended_jobs (mark_all late_marks three_jobs) ≡ ended_jobs three_jobs
mark_all-ended_jobs_example = mark_all-ended_jobs late_marks three_jobs
