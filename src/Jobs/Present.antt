-- ===== src/Jobs/Present.antt =====
-- A run of a job leaves the job its row, whichever of its calls fail.
use decision_center.Base.{
  Bool, true, false, Option, none, some, String, List, [], ◌∷◌, ℕ, suc, str_eq, ◌≡◌, refl, arith,
  All, Bool-cases, inl, inr, ◌∙◌,
}
use decision_center.Base.Effect.{pure, throw, modify, gets, Stays, bind-Stays, try-Stays}
use decision_center.Jobs.{
  JobStatus, JobRow, is_terminal, update_job, unless_terminal, begun_stage, stage_done,
  mark_report_job_running, mark_report_job_stage_complete, fail_report_job,
}
use decision_center.Jobs.Service.{
  JobExc, JobWorld, Exec, call, after_call, edit_jobs, find_job, get_report_job,
}
use decision_center.Jobs.Runner.{
  RunState, Node, StageEvent, starts, fails, ends, reraise, run_from, begin_stage, unless_cancelled,
  record_event, set_stage, on_stage_event, is_cancelled,
}

abbrev pub map_row : (JobRow → JobRow) → Option JobRow → Option JobRow
map_row f none = none
map_row f (some j) = some (f j)

pub find_job-update_job :
    (id : String) (f : JobRow → JobRow) (jobs : List JobRow)
    → ((j : JobRow) → (f j).job_id ≡ j.job_id)
    → find_job id (update_job id f jobs) ≡ map_row f (find_job id jobs)
unfolding find_job update_job
find_job-update_job id f [] keeps = refl
find_job-update_job id f (j ∷ jobs) keeps = elim (Bool-cases (str_eq j.job_id id)) [
  | inl e ↦ rw (e, keeps j, e) refl
  | inr e ↦ rw (e, e) (find_job-update_job id f jobs keeps)
]

abbrev pub is_row : Option JobRow → Bool
is_row none = false
is_row (some j) = true

abbrev pub is_ended : Option JobRow → Bool
is_ended none = false
is_ended (some j) = is_terminal j.status

-- The job has a row; the job has a row in a terminal state.
abbrev pub HasJob : String → JobWorld → Type 0
HasJob id w = is_row (find_job id w.jobs) ≡ true

abbrev pub Ended : String → JobWorld → Type 0
Ended id w = is_ended (find_job id w.jobs) ≡ true

pub is_row-map_row : (f : JobRow → JobRow) (o : Option JobRow) → is_row (map_row f o) ≡ is_row o
is_row-map_row f none = refl
is_row-map_row f (some j) = refl

-- Code that leaves the job its row, whatever comes of it.
abbrev pub Keeps : {A : Type 0} → String → Exec A → Type 0
Keeps id m = Stays (HasJob id) m

after_call-jobs :
    (faults : List (Option JobExc)) (w : JobWorld) → (after_call faults w).1.jobs ≡ w.jobs
after_call-jobs [] w = refl
after_call-jobs (none ∷ rest) w = refl
after_call-jobs (some e ∷ rest) w = refl

pub call-jobs : (w : JobWorld) → (call w).1.jobs ≡ w.jobs
unfolding call
call-jobs w = after_call-jobs w.faults w

after_call-audits :
    (faults : List (Option JobExc)) (w : JobWorld) → (after_call faults w).1.audits ≡ w.audits
after_call-audits [] w = refl
after_call-audits (none ∷ rest) w = refl
after_call-audits (some e ∷ rest) w = refl

pub call-audits : (w : JobWorld) → (call w).1.audits ≡ w.audits
unfolding call
call-audits w = after_call-audits w.faults w

pub call-Keeps : (id : String) → Keeps id call
unfolding call
call-Keeps id w h = rw (after_call-jobs w.faults w) h

pub update-HasJob :
    (id : String) (f : JobRow → JobRow) (w : JobWorld)
    → ((j : JobRow) → (f j).job_id ≡ j.job_id)
    → HasJob id w
    → HasJob id (record w { jobs = update_job id f w.jobs })
update-HasJob id f w keeps h =
    rw (find_job-update_job id f w.jobs keeps) (is_row-map_row f (find_job id w.jobs) ∙ h)

pub edit_jobs-Keeps :
    (id : String) (f : JobRow → JobRow)
    → ((j : JobRow) → (f j).job_id ≡ j.job_id)
    → Keeps id (edit_jobs (update_job id f))
unfolding edit_jobs modify
edit_jobs-Keeps id f keeps =
    bind-Stays (HasJob id) call (λ _. modify _) (call-Keeps id)
      (λ _ w h. update-HasJob id f w keeps h)

pub unless_terminal-job_id :
    (f : JobRow → JobRow) (j : JobRow)
    → (f j).job_id ≡ j.job_id
    → (unless_terminal f j).job_id ≡ j.job_id
unless_terminal-job_id f j h = ground arith

module _ (id : String) where
  pub running-Keeps :
      (stage : String) (node : ℕ) → Keeps id (edit_jobs (mark_report_job_running id stage node))
  unfolding mark_report_job_running
  running-Keeps stage node =
      edit_jobs-Keeps id (unless_terminal (begun_stage stage node))
        (λ j. unless_terminal-job_id (begun_stage stage node) j refl)

  pub stage_complete-Keeps :
      (stage : String) (node : ℕ)
      → Keeps id (edit_jobs (mark_report_job_stage_complete id stage node))
  unfolding mark_report_job_stage_complete
  stage_complete-Keeps stage node =
      edit_jobs-Keeps id (unless_terminal (stage_done stage node))
        (λ j. unless_terminal-job_id (stage_done stage node) j refl)

  pub fail-Keeps :
      (status : JobStatus) (stage : Option String) (error : String)
      → Keeps id (edit_jobs (fail_report_job id status stage error))
  unfolding fail_report_job
  fail-Keeps status stage error = edit_jobs-Keeps id _ (λ j. refl)

  pub unless_cancelled-Keeps :
      (stage : String) (index : ℕ) (job : Option JobRow)
      → Keeps id (unless_cancelled id stage index job)
  unfolding unless_cancelled throw
  unless_cancelled-Keeps stage index job w h = elim (Bool-cases (is_cancelled job)) [
    | inl e ↦ rw e h
    | inr e ↦ rw e (running-Keeps stage (suc index) w h)
  ]

  pub record_event-Keeps :
      (event : StageEvent) (stage : String) (index : ℕ)
      → Keeps id (record_event id event stage index)
  unfolding begin_stage get_report_job gets pure
  record_event-Keeps starts stage index w h =
      bind-Stays (HasJob id) _ _
        (bind-Stays (HasJob id) call (λ _. gets _) (call-Keeps id) (λ _ w h. h))
        (unless_cancelled-Keeps stage index) w h
  record_event-Keeps fails stage index w h = h
  record_event-Keeps ends stage index w h = stage_complete-Keeps stage (suc index) w h

  pub on_stage_event-Keeps :
      (event : StageEvent) (stage : String) (index : ℕ)
      → Keeps id (on_stage_event id event stage index)
  unfolding on_stage_event set_stage modify
  on_stage_event-Keeps event stage index =
      bind-Stays (HasJob id) (set_stage stage) _ (λ w h. h)
        (λ _. record_event-Keeps event stage index)

  pub reraise-Keeps :
      (A : Type 0) (event : Exec Unit) (e : JobExc)
      → Keeps id event
      → Keeps {A = A} id (reraise event e)
  unfolding throw
  reraise-Keeps A event e k = bind-Stays (HasJob id) event (λ _. throw e) k (λ _ w h. h)

  pub run_from-Keeps :
      (nodes : List Node) (index : ℕ) (s : RunState)
      → All (λ n. (s : RunState) → Keeps id (n.run s)) nodes
      → Keeps id (run_from (some (on_stage_event id)) index nodes s)
  unfolding run_from pure
  run_from-Keeps [] index s k w h = h
  run_from-Keeps (n ∷ nodes) index s k w h =
      bind-Stays (HasJob id) _ _ (on_stage_event-Keeps starts n.stage index)
        (λ _.
          bind-Stays (HasJob id) _ _
            (try-Stays (HasJob id) _ _ (k.0 s)
              (λ e. reraise-Keeps RunState _ e (on_stage_event-Keeps fails n.stage index)))
            (λ s'.
              bind-Stays (HasJob id) _ _ (on_stage_event-Keeps ends n.stage index)
                (λ _. run_from-Keeps nodes (suc index) s' k.1)))
        w h
