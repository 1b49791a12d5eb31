-- ===== src/Jobs/Recovery.antt =====
-- Laws of the repair after a restart, and of the progress marks, of the table `report_jobs`.
use decision_center.Base.{
  true, Option, none, some, String, List, [], ◌∷◌, ◌≡◌, refl, ap, ◌∙◌, arith, All, map, filter_by,
  ℕ, if◌then◌else◌,
}
use decision_center.Review.Store.{AuditRow, find_audit}
use decision_center.Jobs.{
  JobRow, is_terminal, update_job, unless_terminal, mark_report_job_running,
  mark_report_job_stage_complete, preserve, lose, recover_completed, recover_failed,
  recover_report_jobs,
}

-- The job after the repair, by itself: a job that has ended stays, one in flight is completed if
-- its report was stored and failed if not.
abbrev repaired : Option AuditRow → JobRow → JobRow
repaired none j = if is_terminal j.status then j else lose none j
repaired (some a) j = if is_terminal j.status then j else preserve (some a) j

repair_once :
    (o : Option AuditRow) (j : JobRow)
    → unless_terminal (lose o) (unless_terminal (preserve o) j) ≡ repaired o j
repair_once none j = ground arith
repair_once (some a) j = ground arith

request_kept :
    (o : Option AuditRow) (j : JobRow) → (unless_terminal (preserve o) j).request_id ≡ j.request_id
request_kept none j = ground arith
request_kept (some a) j = ground arith

-- The two statements of the repair do to each job what it gets by itself: one that has ended stays,
-- one in flight is completed if the report has an audit row and fails if not.
recover_report_jobs-repaired :
    (audits : List AuditRow) (jobs : List JobRow)
    → recover_report_jobs audits jobs ≡ map (λ j. repaired (find_audit j.request_id audits) j) jobs
unfolding recover_report_jobs recover_completed recover_failed
recover_report_jobs-repaired audits [] = refl
recover_report_jobs-repaired audits (j ∷ jobs) =
    rw
      (
        request_kept (find_audit j.request_id audits) j,
        repair_once (find_audit j.request_id audits) j,
      )
      (ap (λ js. repaired (find_audit j.request_id audits) j ∷ js)
        (recover_report_jobs-repaired audits jobs))

repaired_ended : (o : Option AuditRow) (j : JobRow) → is_terminal (repaired o j).status ≡ true
repaired_ended none j = ground arith
repaired_ended (some a) j = ground arith

repaired-All :
    (audits : List AuditRow) (jobs : List JobRow)
    → All
        (λ j. is_terminal j.status ≡ true)
        (map (λ j. repaired (find_audit j.request_id audits) j) jobs)
repaired-All audits [] = tt
repaired-All audits (j ∷ jobs) =
    (repaired_ended (find_audit j.request_id audits) j, repaired-All audits jobs)

stays : (o : Option AuditRow) (j : JobRow) → is_terminal j.status ≡ true → repaired o j ≡ j
stays none j h = rw h refl
stays (some a) j h = rw h refl

settled :
    (audits : List AuditRow) (js : List JobRow)
    → All (λ j. is_terminal j.status ≡ true) js
    → map (λ j. repaired (find_audit j.request_id audits) j) js ≡ js
settled audits [] h = refl
settled audits (j ∷ js) h =
    rw (stays (find_audit j.request_id audits) j h.0) (ap (λ x. j ∷ x) (settled audits js h.1))

-- After the repair no job is in flight, and a second repair changes nothing.
pub recover_report_jobs-twice :
    (audits : List AuditRow) (jobs : List JobRow)
    → All (λ j. is_terminal j.status ≡ true) (recover_report_jobs audits jobs)
      × (recover_report_jobs audits (recover_report_jobs audits jobs)
          ≡ recover_report_jobs audits jobs)
recover_report_jobs-twice audits jobs = rw (recover_report_jobs-repaired audits jobs) (
  repaired-All audits jobs,
  recover_report_jobs-repaired audits _ ∙ settled audits _ (repaired-All audits jobs),
)

abbrev pub ended_jobs : List JobRow → List JobRow
ended_jobs jobs = filter_by (λ j. is_terminal j.status) jobs

running-ended_jobs :
    (id stage : String) (node : ℕ) (jobs : List JobRow)
    → ended_jobs (mark_report_job_running id stage node jobs) ≡ ended_jobs jobs
unfolding mark_report_job_running update_job filter_by
running-ended_jobs id stage node [] = refl
running-ended_jobs id stage node (j ∷ jobs) = ground (arith, running-ended_jobs id stage node jobs)

stage_complete-ended_jobs :
    (id stage : String) (node : ℕ) (jobs : List JobRow)
    → ended_jobs (mark_report_job_stage_complete id stage node jobs) ≡ ended_jobs jobs
unfolding mark_report_job_stage_complete update_job filter_by
stage_complete-ended_jobs id stage node [] = refl
stage_complete-ended_jobs id stage node (j ∷ jobs) =
    ground (arith, stage_complete-ended_jobs id stage node jobs)

-- A progress mark of the runner: the stage has begun_stage, or is complete.
pub data Mark : Type 0 where
  begins completes : (id stage : String) (node : ℕ) → Mark

unfoldable pub mark_all : List Mark → List JobRow → List JobRow
mark_all [] jobs = jobs
mark_all (begins id stage node ∷ marks) jobs =
    mark_all marks (mark_report_job_running id stage node jobs)
mark_all (completes id stage node ∷ marks) jobs =
    mark_all marks (mark_report_job_stage_complete id stage node jobs)

-- Progress marks that arrive late, in whatever order and for whatever jobs, neither change nor
-- revive a job that has ended, and end none.
pub mark_all-ended_jobs :
    (marks : List Mark) (jobs : List JobRow) → ended_jobs (mark_all marks jobs) ≡ ended_jobs jobs
unfolding mark_all
mark_all-ended_jobs [] jobs = refl
mark_all-ended_jobs (begins id stage node ∷ marks) jobs =
    mark_all-ended_jobs marks (mark_report_job_running id stage node jobs)
    ∙ running-ended_jobs id stage node jobs
mark_all-ended_jobs (completes id stage node ∷ marks) jobs =
    mark_all-ended_jobs marks (mark_report_job_stage_complete id stage node jobs)
    ∙ stage_complete-ended_jobs id stage node jobs
