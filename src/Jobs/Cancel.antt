-- ===== src/Jobs/Cancel.antt =====
-- A cancelled job runs no further node.
use decision_center.Base.{
  Bool, true, false, Option, none, some, String, List, ◌∷◌, ℕ, ◌≡◌, sym, refl, Bool-cases, inl, inr,
  ◌∙◌, ap, contains,
}
use decision_center.Base.Effect.{
  done, raised, pure, throw, modify, gets, ◌>>=◌, ◌>>◌, bind-Returns, Returns, done-injective,
}
use decision_center.Rbac.Reviewer.{JwtClaims, Checked, allowed, http, require_claims}
use decision_center.Rbac.Access.{check_can_read_report_job}
use decision_center.Review.Store.{AuditRow, find_audit}
use decision_center.Jobs.{cancelled, JobRow, is_terminal, fail_report_job, failed_as}
use decision_center.Jobs.Service.{
  cancelled_error, JobWorld, Exec, call, edit_jobs, get_report_job, get_audit, find_job,
}
use decision_center.Jobs.Runner.{
  RunState, Node, run_from, is_cancelled, begin_stage, unless_cancelled, on_stage_event, set_stage,
}
use decision_center.Jobs.Present.{map_row, find_job-update_job, is_row, call-jobs, call-audits}
use decision_center.Jobs.Ends.{goes_through, rest_of, call-goes_through}
use decision_center.Jobs.Staging.{
  check_http, raise_if, cancel_task, cancel_job, cancel_found, cancel_report, stop_task,
}

-- The job's row is in the state `cancelled`.
abbrev pub Cancelled : String → JobWorld → Type 0
Cancelled id w = is_cancelled (find_job id w.jobs) ≡ true

-- The run from a stage on, where the job is cancelled: the stage's node does not run.
run_from-Cancelled :
    (id : String) (index : ℕ) (n : Node) (nodes : List Node) (s : RunState) (w : JobWorld)
    → Cancelled id w
    → goes_through w.faults ≡ true
    → run_from (some (on_stage_event id)) index (n ∷ nodes) s w
      ≡ (raised cancelled_error, record w { stage = some n.stage; faults = rest_of w.faults })
unfolding run_from on_stage_event set_stage modify begin_stage get_report_job gets unless_cancelled
    throw ◌>>=◌
run_from-Cancelled id index n nodes s w h c =
    rw (call-goes_through (record w { stage = some n.stage }) c, h) refl

is_cancelled-map_row :
    (f : JobRow → JobRow) (o : Option JobRow)
    → ((j : JobRow) → (f j).status ≡ cancelled)
    → is_row o ≡ true
    → is_cancelled (map_row f o) ≡ true
is_cancelled-map_row f none k h = cc
is_cancelled-map_row f (some j) k h = rw (k j) refl

stop_task-jobs : (id : String) (w : JobWorld) → (stop_task id w).jobs ≡ w.jobs
stop_task-jobs id w = elim (Bool-cases (contains id w.tasks)) [
  | inl e ↦ rw e refl
  | inr e ↦ rw e refl
]

-- Code that reads leaves both tables as they are.
abbrev pub SameTables : JobWorld → JobWorld → Type 0
SameTables w v = (v.jobs ≡ w.jobs) × (v.audits ≡ w.audits)

pub call-SameTables : (w : JobWorld) → Returns call w (λ _ v. SameTables w v)
call-SameTables w a h = (call-jobs w, call-audits w)

pub get_report_job-Returns :
    (id : String) (w : JobWorld)
    → Returns (get_report_job id) w (λ job v. (job ≡ find_job id v.jobs) × SameTables w v)
unfolding get_report_job gets
get_report_job-Returns id w =
    bind-Returns call (λ _. gets _) w (λ _ v. SameTables w v)
      (λ job v. (job ≡ find_job id v.jobs) × SameTables w v) (call-SameTables w)
      (λ _ u same job h. (sym (done-injective h), same))

pub get_audit-Returns :
    (rid : String) (w : JobWorld)
    → Returns (get_audit rid) w (λ audit v. (audit ≡ find_audit rid v.audits) × SameTables w v)
unfolding get_audit gets
get_audit-Returns rid w =
    bind-Returns call (λ _. gets _) w (λ _ v. SameTables w v)
      (λ audit v. (audit ≡ find_audit rid v.audits) × SameTables w v) (call-SameTables w)
      (λ _ u same audit h. (sym (done-injective h), same))

module _ (rid : String) (stage : Option String) where
  fail_report_job-Cancelled :
      (w : JobWorld)
      → is_row (find_job rid w.jobs) ≡ true
      → Returns
          (edit_jobs (fail_report_job rid cancelled stage "Cancelled"))
          w
          (λ _ v. Cancelled rid v)
  unfolding edit_jobs modify fail_report_job
  fail_report_job-Cancelled w row =
      bind-Returns call (λ _. modify _) w (λ _ v. SameTables w v) (λ _ v. Cancelled rid v)
        (call-SameTables w)
        (λ _ u same _ h.
          rw
            (
              same.0,
              find_job-update_job rid (failed_as cancelled stage "Cancelled") w.jobs (λ j. refl),
            )
            (is_cancelled-map_row (failed_as cancelled stage "Cancelled") (find_job rid w.jobs)
              (λ j. refl) row))

  past_checks :
      (c : Checked {0} Unit) (ended : Bool) (w : JobWorld)
      → is_row (find_job rid w.jobs) ≡ true
      → Returns
          (do
            check_http c
            raise_if ended 409
            cancel_task rid
            edit_jobs (fail_report_job rid cancelled stage "Cancelled"))
          w
          (λ _ v. Cancelled rid v)
  unfolding check_http raise_if cancel_task throw pure modify ◌>>=◌
  past_checks (http code) ended w row a h = cc
  past_checks (allowed tt) true w row a h = cc
  past_checks (allowed tt) false w row a h =
      fail_report_job-Cancelled (stop_task rid w) (rw (stop_task-jobs rid w) row) a h

module _ (hash_user_id : String → String) (entra : Bool)
    (cancel_row : JwtClaims → String → AuditRow → Exec Unit) (rid : String) where
  cancel_found-Cancelled :
      (claims : JwtClaims) (job : Option JobRow) (audit : Option AuditRow) (w : JobWorld)
      → job ≡ find_job rid w.jobs
      → audit ≡ none
      → Returns
          (cancel_found hash_user_id entra cancel_row claims rid job audit)
          w
          (λ _ v. Cancelled rid v)
  unfolding cancel_found cancel_job throw
  cancel_found-Cancelled claims job (some audit) w e stored a h = cc
  cancel_found-Cancelled claims none none w e stored a h = cc
  cancel_found-Cancelled claims (some job) none w e stored a h =
      past_checks rid job.current_stage
        (check_can_read_report_job hash_user_id entra (some claims) job.user_id_hash)
        (is_terminal job.status) w (rw (sym e) refl) a h

  claims-Returns :
      (caller : Option JwtClaims) (w : JobWorld)
      → Returns (check_http (require_claims caller)) w (λ _ v. v ≡ w)
  unfolding check_http require_claims throw pure
  claims-Returns none w a h = cc
  claims-Returns (some claims) w a h = refl

  cancel_report-Cancelled :
      (caller : Option JwtClaims) (w : JobWorld)
      → find_audit rid w.audits ≡ none
      → Returns (cancel_report hash_user_id entra cancel_row caller rid) w (λ _ v. Cancelled rid v)
  unfolding cancel_report
  cancel_report-Cancelled caller w stored =
      bind-Returns _ _ w (λ _ v. v ≡ w) (λ _ v. Cancelled rid v) (claims-Returns caller w)
        (λ claims w0 at_w.
          bind-Returns _ _ w0 (λ _ v. SameTables w v) (λ _ v. Cancelled rid v)
            (λ a h. rw at_w (call-SameTables w a (rw at_w at h)))
            (λ _ w1 same1.
              bind-Returns _ _ w1 (λ job v. (job ≡ find_job rid v.jobs) × SameTables w1 v)
                (λ _ v. Cancelled rid v) (get_report_job-Returns rid w1)
                (λ job w2 read2.
                  bind-Returns _ _ w2
                    (λ audit v. (audit ≡ find_audit rid v.audits) × SameTables w2 v)
                    (λ _ v. Cancelled rid v) (get_audit-Returns rid w2)
                    (λ audit w3 read3.
                      cancel_found-Cancelled claims job audit w3
                        (read2.0 ∙ ap (find_job rid) (sym read3.1.0))
                        (read3.0
                          ∙ ap (find_audit rid) (read3.1.1 ∙ read2.1.1 ∙ same1.1)
                          ∙ stored)))))

  -- Where the report has no audit row, once a cancellation has returned the job is cancelled, and a
  -- run that comes to its next stage stops there if its read of the job goes through: it raises
  -- CancelledError, runs no node and writes nothing.
  pub cancel_report-run_from :
      (caller : Option JwtClaims) (w : JobWorld) (index : ℕ) (n : Node) (nodes : List Node)
      (s : RunState)
      → find_audit rid w.audits ≡ none
      → (cancel_report hash_user_id entra cancel_row caller rid w).0 ≡ done tt
      → goes_through (cancel_report hash_user_id entra cancel_row caller rid w).1.faults ≡ true
      → let v = (cancel_report hash_user_id entra cancel_row caller rid w).1 in
        Cancelled rid v
        × (run_from (some (on_stage_event rid)) index (n ∷ nodes) s v ≡ (
          raised cancelled_error,
          record v { stage = some n.stage; faults = rest_of v.faults },
        ))
  cancel_report-run_from caller w index n nodes s stored h c =
      let gone = cancel_report-Cancelled caller w stored tt h in
      (gone, run_from-Cancelled rid index n nodes s _ gone c)
