-- ===== src/Jobs/Ends.antt =====
-- Where a run of a job leaves its row.
use decision_center.Base.{
  Bool, true, false, Option, none, some, String, List, [], ◌∷◌, ◌≡◌, sym, subst, refl, All,
}
use decision_center.Base.Effect.{
  Result, done, raised, throw, modify, gets, try_except, ◌>>=◌, bind-Stays, resume, or_handle,
}
use decision_center.Review.Store.{AuditRow}
use decision_center.Jobs.{JobRow, is_terminal, update_job, complete_report_job, fail_report_job}
use decision_center.Jobs.Service.{
  JobExc, timeout_error, cancelled_error, http_error, failure, JobWorld, Exec, call, after_call,
  edit_jobs, find_job, get_audit,
}
use decision_center.Jobs.Runner.{
  RunState, Node, run_workflow, set_stage, finish, attempt_job, store_failure, on_exception,
  run_report_job,
}
use decision_center.Jobs.Present.{
  map_row, find_job-update_job, is_row, is_ended, HasJob, Ended, Keeps, call-Keeps, run_from-Keeps,
}

-- Code that ends the job where it returns, and leaves it its row where it raises.
abbrev pub EndedOr : {A : Type 0} → String → Result JobExc A → JobWorld → Type 0
EndedOr id (done a) w = Ended id w
EndedOr id (raised e) w = HasJob id w

abbrev pub Settles : {A : Type 0} → String → Exec A → Type 0
Settles id m = (w : JobWorld) → HasJob id w → EndedOr id (m w).0 (m w).1

resume-Settles :
    {A B : Type 0} (id : String) (r : Result JobExc A) (f : A → Exec B) (w : JobWorld)
    → ((a : A) → Settles id (f a))
    → HasJob id w
    → EndedOr id (resume r f w).0 (resume r f w).1
resume-Settles id (done a) f w k h = k a w h
resume-Settles id (raised e) f w k h = h

bind-Settles :
    {A B : Type 0} (id : String) (m : Exec A) (f : A → Exec B)
    → Keeps id m
    → ((a : A) → Settles id (f a))
    → Settles id (m >>= f)
unfolding ◌>>=◌
bind-Settles id m f k kf w h = resume-Settles id (m w).0 f (m w).1 kf (k w h)

is_ended-map_row :
    (f : JobRow → JobRow) (o : Option JobRow)
    → ((j : JobRow) → is_terminal (f j).status ≡ true)
    → is_row o ≡ true
    → is_ended (map_row f o) ≡ true
is_ended-map_row f none ended h = cc
is_ended-map_row f (some j) ended h = ended j

module _ (id : String) where
  update-Ended :
      (f : JobRow → JobRow) (w : JobWorld)
      → ((j : JobRow) → (f j).job_id ≡ j.job_id)
      → ((j : JobRow) → is_terminal (f j).status ≡ true)
      → HasJob id w
      → Ended id (record w { jobs = update_job id f w.jobs })
  update-Ended f w keeps ended h =
      rw (find_job-update_job id f w.jobs keeps) (is_ended-map_row f (find_job id w.jobs) ended h)

  edit_jobs-Settles :
      (f : JobRow → JobRow)
      → ((j : JobRow) → (f j).job_id ≡ j.job_id)
      → ((j : JobRow) → is_terminal (f j).status ≡ true)
      → Settles id (edit_jobs (update_job id f))
  unfolding edit_jobs modify
  edit_jobs-Settles f keeps ended =
      bind-Settles id call (λ _. modify _) (call-Keeps id) (λ _ w h. update-Ended f w keeps ended h)

  finish-Settles : (s : RunState) (audit : Option AuditRow) → Settles id (finish id s audit)
  unfolding finish fail_report_job complete_report_job
  finish-Settles s none = edit_jobs-Settles _ (λ j. refl) (λ j. refl)
  finish-Settles s (some a) = edit_jobs-Settles _ (λ j. refl) (λ j. refl)

  attempt_job-Settles :
      (nodes : List Node) (s : RunState)
      → All (λ n. (s : RunState) → Keeps id (n.run s)) nodes
      → Settles id (attempt_job nodes id s)
  unfolding attempt_job run_workflow get_audit gets
  attempt_job-Settles nodes s k = bind-Settles id _ _ (run_from-Keeps id nodes 0 s k) (λ result.
      bind-Settles id _ _ (bind-Stays (HasJob id) call (λ _. gets _) (call-Keeps id) (λ _ w h. h))
        (finish-Settles result))

  store_failure-Settles : (e : JobExc) → Settles id (store_failure id e)
  unfolding store_failure fail_report_job
  store_failure-Settles timeout_error w h = edit_jobs-Settles _ (λ j. refl) (λ j. refl) w h
  store_failure-Settles cancelled_error w h = edit_jobs-Settles _ (λ j. refl) (λ j. refl) w h
  store_failure-Settles (http_error code) w h = edit_jobs-Settles _ (λ j. refl) (λ j. refl) w h
  store_failure-Settles (failure name) w h = edit_jobs-Settles _ (λ j. refl) (λ j. refl) w h

-- Whether the next call to the store goes through, and the calls after it.
abbrev pub goes_through : List (Option JobExc) → Bool
goes_through (some e ∷ faults) = false
goes_through _ = true

abbrev pub rest_of : List (Option JobExc) → List (Option JobExc)
rest_of [] = []
rest_of (e ∷ faults) = faults

after_call-goes_through :
    (faults : List (Option JobExc)) (w : JobWorld)
    → w.faults ≡ faults
    → goes_through faults ≡ true
    → after_call faults w ≡ (done tt, record w { faults = rest_of faults })
after_call-goes_through [] w e h = rw (sym e) refl
after_call-goes_through (none ∷ faults) w e h = refl
after_call-goes_through (some x ∷ faults) w e h = cc

pub call-goes_through :
    (w : JobWorld)
    → goes_through w.faults ≡ true
    → call w ≡ (done tt, record w { faults = rest_of w.faults })
unfolding call
call-goes_through w h = after_call-goes_through w.faults w refl h

-- The world in which `_run_report_job` enters its `try`.
abbrev pub started : JobWorld → JobWorld
started w = record w { faults = rest_of w.faults; stage = some "queued" }

-- What the task of a job reports: of all exceptions, the cancellation alone leaves it.
abbrev pub reported : Result JobExc Unit → Result JobExc Unit
reported (raised cancelled_error) = raised cancelled_error
reported _ = done tt

module _ (id : String) where
  store_failure-done :
      (e : JobExc) (w : JobWorld)
      → goes_through w.faults ≡ true
      → (store_failure id e w).0 ≡ done tt
  unfolding store_failure edit_jobs modify ◌>>=◌
  store_failure-done e w c = rw (call-goes_through w c) refl

  store_failure-Ended :
      (e : JobExc) (w : JobWorld)
      → goes_through w.faults ≡ true
      → HasJob id w
      → Ended id (store_failure id e w).1
  store_failure-Ended e w c h =
      subst (λ r. EndedOr id r (store_failure id e w).1) (store_failure-done e w c)
        (store_failure-Settles id e w h)

  on_exception-Ended :
      (e : JobExc) (w : JobWorld)
      → goes_through w.faults ≡ true
      → HasJob id w
      → Ended id (on_exception id e w).1 × ((on_exception id e w).0 ≡ reported (raised e))
  unfolding on_exception ◌>>=◌ throw
  on_exception-Ended timeout_error w c h =
      (store_failure-Ended timeout_error w c h, store_failure-done timeout_error w c)
  on_exception-Ended cancelled_error w c h =
      rw (store_failure-done cancelled_error w c) (store_failure-Ended cancelled_error w c h, refl)
  on_exception-Ended (http_error code) w c h =
      (store_failure-Ended (http_error code) w c h, store_failure-done (http_error code) w c)
  on_exception-Ended (failure name) w c h =
      (store_failure-Ended (failure name) w c h, store_failure-done (failure name) w c)

  or_on_exception-Ended :
      (r : Result JobExc Unit) (w : JobWorld)
      → goes_through w.faults ≡ true
      → EndedOr id r w
      → Ended id (or_handle (on_exception id) r w).1
        × ((or_handle (on_exception id) r w).0 ≡ reported r)
  or_on_exception-Ended (done tt) w c h = (h, refl)
  or_on_exception-Ended (raised e) w c h = on_exception-Ended e w c h

  run_report_job-started :
      (nodes : List Node) (s : RunState) (w : JobWorld)
      → goes_through w.faults ≡ true
      → run_report_job nodes id s w
        ≡ try_except (attempt_job nodes id s) (on_exception id) (started w)
  unfolding run_report_job ◌>>=◌ set_stage modify
  run_report_job-started nodes s w c = rw (call-goes_through w c) refl

  -- A run of a job that has a row ends the job, whatever the nodes do that leaves the row in place
  -- and whichever exception ends the work, if the first call to the store goes through and so does
  -- the first call after the work; and it raises nothing but a cancellation that ended the work.
  pub run_report_job-Ended :
      (nodes : List Node) (s : RunState) (w : JobWorld)
      → All (λ n. (s : RunState) → Keeps id (n.run s)) nodes
      → HasJob id w
      → goes_through w.faults ≡ true
      → goes_through (attempt_job nodes id s (started w)).1.faults ≡ true
      → Ended id (run_report_job nodes id s w).1
        × ((run_report_job nodes id s w).0 ≡ reported (attempt_job nodes id s (started w)).0)
  unfolding try_except
  run_report_job-Ended nodes s w k h c d = rw (run_report_job-started nodes s w c) (
      or_on_exception-Ended (attempt_job nodes id s (started w)).0
        (attempt_job nodes id s (started w)).1 d (attempt_job-Settles id nodes s k (started w) h))
