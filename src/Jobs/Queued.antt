-- ===== src/Jobs/Queued.antt =====
-- What the staging endpoint does before a job runs.
use decision_center.Base.{
  Bool, true, false, ◌||◌, Option, none, some, String, List, [], ◌∷◌, ℕ, zero, suc, All, eq_refl,
  ◌≡◌, sym, refl, arith, Bool-cases, inl, inr, ◌∙◌, contains, is_empty, is_empty_text, length,
}
use decision_center.Base.Dict.{lookup, string_key}
use decision_center.Base.Effect.{
  Result, done, raised, pure, throw, modify, gets, try_except, ◌>>=◌, bind-Returns, Returns, Stays,
  bind-Stays, try-Stays, done-injective,
}
use decision_center.Rbac.Reviewer.{JwtClaims}
use decision_center.Jobs.{JobRow}
use decision_center.Jobs.Service.{
  JobExc, timeout_error, cancelled_error, http_error, failure, JobWorld, call, edit_jobs, find_job,
  queued_job, insert_report_job,
}
use decision_center.Jobs.Runner.{Node}
use decision_center.Jobs.Present.{call-jobs}
use decision_center.Jobs.Staging.{
  has_complete_mapping, require_complete, check_mapping, allow_unless_http,
  enforce_complete_source_mapping, ReportRequest, StageReply, accepted, effective_user,
  schedule_report_job, queue_report, run_or_queue, stage_report,
}

-- Whether the mapping rule lets a project through: none is named, no project is mapped yet, or
-- this one's mapping is complete.
abbrev pub lets_through : Option String → JobWorld → Bool
lets_through none w = true
lets_through (some code) w =
    is_empty_text code || is_empty w.mappings || has_complete_mapping (lookup code w.mappings)

abbrev pub verdict : Bool → Result JobExc Unit
verdict true = done tt
verdict false = raised (http_error 422)

-- The store fails in one of the next calls.
abbrev pub fails_within : ℕ → List (Option JobExc) → Bool
fails_within zero faults = false
fails_within (suc n) [] = false
fails_within (suc n) (none ∷ faults) = fails_within n faults
fails_within (suc n) (some e ∷ faults) = true

-- What a call to the store may raise: an error or a timeout, neither an HTTP error nor a
-- cancellation.
abbrev pub IsStoreError : Option JobExc → Type 0
IsStoreError none = Unit
IsStoreError (some timeout_error) = Unit
IsStoreError (some (failure name)) = Unit
IsStoreError (some (http_error code)) = ⊥
IsStoreError (some cancelled_error) = ⊥

check_mapping-result :
    (code : String) (w : JobWorld)
    → All IsStoreError w.faults
    → (try_except (check_mapping code) allow_unless_http w).0
      ≡ verdict (
          is_empty w.mappings
          || has_complete_mapping (lookup code w.mappings)
          || fails_within 3 w.faults)
unfolding check_mapping require_complete try_except call gets pure throw ◌>>=◌ allow_unless_http
check_mapping-result code w h = ground (arith, h)

-- Whichever calls to the store fail: the check of the source mapping lets a project pass exactly
-- where the rule does or one of its three calls to the store fails, and refuses every other project
-- with 422. The store raises no HTTP error and no cancellation.
pub enforce_complete_source_mapping-lets_through :
    (project : Option String) (w : JobWorld)
    → All IsStoreError w.faults
    → (enforce_complete_source_mapping project w).0
      ≡ verdict (lets_through project w || fails_within 3 w.faults)
unfolding enforce_complete_source_mapping pure
enforce_complete_source_mapping-lets_through none w h = refl
enforce_complete_source_mapping-lets_through (some code) w h =
    elim (Bool-cases (is_empty_text code)) [
      | inl e ↦ rw e refl
      | inr e ↦ rw e (check_mapping-result code w h)
    ]

insert_report_job-find_job :
    (id rid user : String) (total : ℕ) (jobs : List JobRow)
    → find_job id jobs ≡ none
    → find_job id (insert_report_job id rid user total jobs) ≡ some (queued_job id rid user total)
unfolding find_job insert_report_job
insert_report_job-find_job id rid user total [] h = rw (eq_refl id) refl
insert_report_job-find_job id rid user total (j ∷ jobs) h =
    ground (arith, insert_report_job-find_job id rid user total jobs)

-- The state in which a report that was accepted waits for its run.
abbrev pub Queued : String → JobRow → JobWorld → Type 0
Queued rid row v = (find_job rid v.jobs ≡ some row) × (contains rid v.tasks ≡ true)

-- The check of the mapping writes nothing.
module _ (jobs : List JobRow) where
  abbrev JobsAre : JobWorld → Type 0
  JobsAre w = w.jobs ≡ jobs

  call-Stays : Stays JobsAre call
  call-Stays w h = call-jobs w ∙ h

  require_complete-Stays : (code : String) → Stays JobsAre (require_complete code)
  unfolding require_complete gets throw pure
  require_complete-Stays code = bind-Stays JobsAre _ _ call-Stays (λ _.
      bind-Stays JobsAre _ _ (λ w h. h)
        (λ status w h. elim (Bool-cases (has_complete_mapping status)) [
          | inl e ↦ rw e h
          | inr e ↦ rw e h
        ]))

  check_mapping-Stays : (code : String) → Stays JobsAre (check_mapping code)
  unfolding check_mapping gets pure
  check_mapping-Stays code = bind-Stays JobsAre _ _ call-Stays (λ _.
      bind-Stays JobsAre _ _ call-Stays (λ _.
        bind-Stays JobsAre _ _ (λ w h. h)
          (λ unseeded w h. elim (Bool-cases unseeded) [
            | inl e ↦ rw e h
            | inr e ↦ rw e (require_complete-Stays code w h)
          ])))

  allow_unless_http-Stays : (e : JobExc) → Stays JobsAre (allow_unless_http e)
  unfolding allow_unless_http throw pure
  allow_unless_http-Stays (http_error code) w h = h
  allow_unless_http-Stays cancelled_error w h = h
  allow_unless_http-Stays timeout_error w h = h
  allow_unless_http-Stays (failure name) w h = h

  enforce-Stays :
      (project : Option String) → Stays JobsAre (enforce_complete_source_mapping project)
  unfolding enforce_complete_source_mapping pure
  enforce-Stays none w h = h
  enforce-Stays (some code) w h = elim (Bool-cases (is_empty_text code)) [
    | inl e ↦ rw e h
    | inr e ↦ rw e (
        try-Stays JobsAre (check_mapping code) allow_unless_http (check_mapping-Stays code)
          allow_unless_http-Stays w h)
  ]

module _ (hash_user_id : String → String) (nodes : List Node) (caller : Option JwtClaims)
    (request : ReportRequest) (rid : String) where
  abbrev pub new_row : JobRow
  new_row = queued_job rid rid (hash_user_id (effective_user caller request)) (length nodes)

  -- What holds once the endpoint has answered.
  abbrev pub Accepted : StageReply → JobWorld → Type 0
  Accepted reply v = Queued rid new_row v × (reply ≡ accepted rid)

  abbrev Fresh : JobWorld → Type 0
  Fresh w = find_job rid w.jobs ≡ none

  insert-Returns :
      (w : JobWorld)
      → Fresh w
      → Returns
          (edit_jobs (
            insert_report_job rid rid
              (hash_user_id (effective_user caller request))
              (length nodes)))
          w
          (λ _ v. find_job rid v.jobs ≡ some new_row)
  unfolding edit_jobs modify
  insert-Returns w fresh =
      bind-Returns call _ w (λ _ v. Fresh v) (λ _ v. find_job rid v.jobs ≡ some new_row)
        (λ _ h. rw (call-jobs w) fresh)
        (λ _ u kept _ h. insert_report_job-find_job rid rid _ _ u.jobs kept)

  queue_report-Accepted :
      (w : JobWorld)
      → Fresh w
      → Returns (queue_report hash_user_id nodes rid (effective_user caller request)) w Accepted
  unfolding queue_report schedule_report_job modify pure contains
  queue_report-Accepted w fresh =
      bind-Returns call _ w (λ _ v. Fresh v) Accepted (λ _ h. rw (call-jobs w) fresh)
        (λ _ w1 fresh1.
          bind-Returns _ _ w1 (λ _ v. find_job rid v.jobs ≡ some new_row) Accepted
            (insert-Returns w1 fresh1)
            (λ _ w2 row.
              bind-Returns _ _ w2 (λ _ v. Queued rid new_row v) Accepted
                (λ _ h. (row, rw (eq_refl rid) refl))
                (λ _ w3 waits reply h. (waits, sym (done-injective h)))))

  -- A report that is staged to run on its own, under an id that no job has, is queued once the
  -- endpoint returns: the answer is its id, its row is the queued row of the caller's user id and
  -- of as many nodes as the workflow has, and its task is kept.
  pub stage_report-Accepted :
      (w : JobWorld) (reply : StageReply)
      → find_job rid w.jobs ≡ none
      → (stage_report hash_user_id nodes caller request false rid w).0 ≡ done reply
      → Accepted reply (stage_report hash_user_id nodes caller request false rid w).1
  unfolding stage_report run_or_queue
  stage_report-Accepted w reply fresh h =
      bind-Returns _ _ w (λ _ v. Fresh v) Accepted
        (λ _ k. rw (enforce-Stays w.jobs request.project_code w refl) fresh)
        (λ _ w1 fresh1. queue_report-Accepted w1 fresh1) reply h
