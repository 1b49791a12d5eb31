-- ===== src/Jobs/Polled.antt =====
-- What a poll of a report's status says of its job.
use decision_center.Base.{
  Bool, true, Option, none, some, String, List, [], ◌∷◌, ◌≡◌, refl, ap, ◌∙◌, subst, ℕ, All, str_eq,
  Bool-cases, inl, inr,
}
use decision_center.Base.Effect.{done, pure, throw, Returns, bind-Returns, done-injective}
use decision_center.Rbac.Reviewer.{JwtClaims, Checked, allowed, http, require_claims}
use decision_center.Rbac.Access.{check_can_read_own_report, check_can_read_report_job}
use decision_center.Review.Store.{AuditRow}
use decision_center.Jobs.{JobRow, is_terminal, recover_report_jobs}
use decision_center.Jobs.Service.{JobWorld, find_job, get_report_job}
use decision_center.Jobs.Staging.{check_http}
use decision_center.Jobs.Recovery.{recover_report_jobs-twice}
use decision_center.Jobs.Cancel.{SameTables, call-SameTables, get_report_job-Returns}
use decision_center.Jobs.Status.{
  StatusResponse, job_status_response, audit_status_response, status_of_audit, hand_over, status_of,
  is_completed, get_report_status,
}

-- No job, or one that has ended.
abbrev pub is_settled : Option JobRow → Bool
is_settled none = true
is_settled (some j) = is_terminal j.status

find_job-is_settled :
    (id : String) (jobs : List JobRow)
    → All (λ j. is_terminal j.status ≡ true) jobs
    → is_settled (find_job id jobs) ≡ true
unfolding find_job
find_job-is_settled id [] h = refl
find_job-is_settled id (j ∷ jobs) h = elim (Bool-cases (str_eq j.job_id id)) [
  | inl e ↦ rw e h.0
  | inr e ↦ rw e (find_job-is_settled id jobs h.1)
]

-- The job read from a repaired table.
get_report_job-is_settled :
    (rid : String) (audits : List AuditRow) (jobs : List JobRow) (w : JobWorld)
    → w.jobs ≡ recover_report_jobs audits jobs
    → Returns (get_report_job rid) w (λ job _. is_settled job ≡ true)
get_report_job-is_settled rid audits jobs w repaired job k =
    let read = get_report_job-Returns rid w job k in
    ap is_settled (read.0 ∙ ap (find_job rid) (read.1.0 ∙ repaired))
    ∙ find_job-is_settled rid (recover_report_jobs audits jobs)
        (recover_report_jobs-twice audits jobs).0

-- The reply says that the report has ended.
abbrev SaysEnded : StatusResponse → JobWorld → Type 0
SaysEnded reply w = reply.has_ended ≡ true

check_http-Returns :
    {A : Type 0} (c : Checked A) (w : JobWorld) → Returns (check_http c) w (λ _ v. v ≡ w)
unfolding check_http throw pure
check_http-Returns (http code) w a h = cc
check_http-Returns (allowed x) w a h = refl

module _ (hash_user_id : String → String) (entra : Bool) (node_count : ℕ) where
  status_of_audit-SaysEnded :
      (claims : JwtClaims) (audit : Option AuditRow) (w : JobWorld)
      → Returns (status_of_audit hash_user_id entra node_count claims audit) w SaysEnded
  unfolding status_of_audit throw pure audit_status_response
  status_of_audit-SaysEnded claims none w reply h = cc
  status_of_audit-SaysEnded claims (some a) w reply h =
      bind-Returns _ _ w (λ _ v. v ≡ w) SaysEnded
        (check_http-Returns
          (check_can_read_own_report hash_user_id entra (some claims) a.user_id_hash) w)
        (λ _ v _ out k. subst (λ r. r.has_ended ≡ true) (done-injective k) refl) reply h

  hand_over-SaysEnded :
      (claims : JwtClaims) (j : JobRow) (audit : Option AuditRow) (w : JobWorld)
      → is_terminal j.status ≡ true
      → Returns (hand_over hash_user_id entra node_count claims j audit) w SaysEnded
  unfolding pure job_status_response
  hand_over-SaysEnded claims j none w e reply h =
      subst (λ r. r.has_ended ≡ true) (done-injective h) e
  hand_over-SaysEnded claims j (some a) w e reply h = elim (Bool-cases (is_completed j.status)) [
    | inl k ↦ status_of_audit-SaysEnded claims (some a) w reply (rw k at h)
    | inr k ↦ subst (λ r. r.has_ended ≡ true) (done-injective (rw k at h)) e
  ]

  status_of-SaysEnded :
      (claims : JwtClaims) (job : Option JobRow) (audit : Option AuditRow) (w : JobWorld)
      → is_settled job ≡ true
      → Returns (status_of hash_user_id entra node_count claims job audit) w SaysEnded
  unfolding status_of
  status_of-SaysEnded claims none audit w e reply h =
      status_of_audit-SaysEnded claims audit w reply h
  status_of-SaysEnded claims (some j) audit w e reply h =
      bind-Returns _ _ w (λ _ v. v ≡ w) SaysEnded
        (check_http-Returns
          (check_can_read_report_job hash_user_id entra (some claims) j.user_id_hash) w)
        (λ _ v _. hand_over-SaysEnded claims j audit v e) reply h

  -- After the repair of a restart, every poll of any report that answers says that the report has
  -- ended.
  pub get_report_status-has_ended :
      (caller : Option JwtClaims) (rid : String) (audits : List AuditRow) (jobs : List JobRow)
      (w : JobWorld) (reply : StatusResponse)
      → w.jobs ≡ recover_report_jobs audits jobs
      → (get_report_status hash_user_id entra node_count caller rid w).0 ≡ done reply
      → reply.has_ended ≡ true
  unfolding get_report_status
  get_report_status-has_ended caller rid audits jobs w reply repaired h =
      bind-Returns _ _ w (λ _ v. v ≡ w) SaysEnded (check_http-Returns (require_claims caller) w)
        (λ claims w0 at_w.
          bind-Returns _ _ w0 (λ _ v. SameTables w0 v) SaysEnded (call-SameTables w0)
            (λ _ w1 same.
              bind-Returns _ _ w1 (λ job _. is_settled job ≡ true) SaysEnded
                (get_report_job-is_settled rid audits jobs w1
                  (same.0 ∙ ap (λ x. x.jobs) at_w ∙ repaired))
                (λ job w2 ended.
                  bind-Returns _ _ w2 (λ _ _. Unit) SaysEnded (λ _ _. tt)
                    (λ audit w3 _. status_of-SaysEnded claims job audit w3 ended))))
        reply h
