-- ===== src/Review/Machine.antt =====
-- The life of a report as a state machine, and sequences of requests to the review endpoints by
-- any callers, with any service failures.
use decision_center.Base.{
  Bool, true, false, Option, none, some, String, List, [], ◌∷◌, ◌≡◌, inl, inr, refl, eq_iff, subst,
  ◌≢◌, ◌⊎◌, str_eq, Bool-cases,
}
use decision_center.Rbac.Reviewer.{JwtClaims}
use decision_center.Review.Store.{
  ReviewState, approved, rejected, revision_requested, final, cancelled, AuditRow, Decision,
  ObjectName, World, Exec, find_audit, set_review_state,
}
use decision_center.Review.Rows.{row_state, state_of, with_state, find_audit-set_review_state}
use decision_center.Review.Handlers.{
  Reply, is_final, blocks_approval, approve_report, reject_report, request_revision, cancel_report,
  override_approve, override_reject,
}
use decision_center.Review.Effects.{
  Sets, is_closed, is_undecided, may_review, may_administer, reject_report-effect,
  request_revision-effect, cancel_report-effect, override_reject-effect,
}
use decision_center.Review.Approval.{Approves, approve_report-effect, override_approve-effect}

pub data Request : Type 0 where
  approve : String → Option String → Request
  reject : String → Option String → Request
  revise : String → Option String → Option String → Request
  cancel : String → Request
  overriding_approve overriding_reject : String → Option String → Request

-- How one request by one caller may move the report `k`: the request's own move, where the state
-- allows it and the caller's permissions do, or none.
pub data Step (k : String) (caller : Option JwtClaims)
    : Request → Option ReviewState → Option ReviewState → Type 0 where
  ignored : {request : Request} {s : Option ReviewState} → Step k caller request s s
  approving :
      {comment : Option String} {s : Option ReviewState}
      → s ≢ some final
      → s ≢ some rejected
      → may_review caller ≡ true
      → Step k caller (approve k comment) s (some approved)
  publishing :
      {comment : Option String} {s : Option ReviewState}
      → s ≢ some final
      → s ≢ some rejected
      → may_review caller ≡ true
      → Step k caller (approve k comment) s (some final)
  rejecting :
      {reason : Option String} {s : Option ReviewState}
      → s ≢ some final
      → may_review caller ≡ true
      → Step k caller (reject k reason) s (some rejected)
  revising :
      {reason comment : Option String} {s : Option ReviewState}
      → s ≢ some final
      → may_review caller ≡ true
      → Step k caller (revise k reason comment) s (some revision_requested)
  cancelling :
      {s : Option ReviewState}
      → is_closed s ≡ false
      → caller ≢ none
      → Step k caller (cancel k) s (some cancelled)
  approving_over :
      {comment : Option String} {s : Option ReviewState}
      → is_undecided s ≡ true
      → may_administer caller ≡ true
      → Step k caller (overriding_approve k comment) s (some approved)
  publishing_over :
      {comment : Option String} {s : Option ReviewState}
      → is_undecided s ≡ true
      → may_administer caller ≡ true
      → Step k caller (overriding_approve k comment) s (some final)
  rejecting_over :
      {comment : Option String} {s : Option ReviewState}
      → is_undecided s ≡ true
      → may_administer caller ≡ true
      → Step k caller (overriding_reject k comment) s (some rejected)

-- One step for each request, in their order.
pub data Trail (k : String)
    : List (Option JwtClaims × Request) → Option ReviewState → Option ReviewState → Type 0 where
  stay : {s : Option ReviewState} → Trail k [] s s
  then_step :
      {caller : Option JwtClaims} {request : Request} {rest : List (Option JwtClaims × Request)}
      {s t u : Option ReviewState}
      → Step k caller request s t
      → Trail k rest t u
      → Trail k ((caller, request) ∷ rest) s u

-- The guards of the handlers, by the states that they let through.
blocks_approval-free :
    (s : Option ReviewState) → blocks_approval s ≡ false → (s ≢ some final) × (s ≢ some rejected)
blocks_approval-free s h = (λ e. cc, λ e. cc)

is_final-free : (s : Option ReviewState) → is_final s ≡ false → s ≢ some final
is_final-free s h e = cc

stamped :
    (P : Option ReviewState → Type 0) (s : ReviewState) (row : Option AuditRow)
    → P (row_state row)
    → P (some s)
    → P (row_state (with_state s row))
stamped P s none before after = before
stamped P s (some row) before after = after

-- A state update gives the report that it names the new state, if that is there, and no other.
set_review_state-state_of :
    (P : Option ReviewState → Type 0) (rid k : String) (s : ReviewState) (rows : List AuditRow)
    → P (state_of k rows)
    → (rid ≡ k → P (some s))
    → P (state_of k (set_review_state rid s rows))
set_review_state-state_of P rid k s rows before after =
    rw (find_audit-set_review_state rid k s rows) (elim (Bool-cases (str_eq rid k)) [
      | inl same ↦ rw same (stamped P s (find_audit k rows) before (after ((eq_iff rid k).0 same)))
      | inr other ↦ rw other before
    ])

module _ (hash_user_id : String → String) (strip : String → String)
    (render_log : AuditRow → Decision → List ObjectName → String) (entra : Bool) where
  -- The endpoint that a request reaches.
  unfoldable pub handle : Option JwtClaims → Request → Exec Reply
  handle caller (approve rid comment) =
      approve_report hash_user_id strip render_log entra caller rid comment
  handle caller (reject rid reason) =
      reject_report hash_user_id strip render_log entra caller rid reason
  handle caller (revise rid reason comment) =
      request_revision hash_user_id strip render_log entra caller rid reason comment
  handle caller (cancel rid) = cancel_report hash_user_id strip render_log entra caller rid
  handle caller (overriding_approve rid comment) =
      override_approve hash_user_id strip render_log entra caller rid comment
  handle caller (overriding_reject rid comment) =
      override_reject hash_user_id strip render_log entra caller rid comment

  unfoldable pub serve : List (Option JwtClaims × Request) → World → World
  serve [] w = w
  serve ((caller, request) ∷ rest) w = serve rest (handle caller request w).1

  Sets-Step :
      (caller : Option JwtClaims) (request : Request) (rid k : String) (s : ReviewState)
      (w w' : World) {Guard : Type 0}
      → (Guard → Step rid caller request (state_of rid w.audits) (some s))
      → Sets rid s Guard w w'
      → Step k caller request (state_of k w.audits) (state_of k w'.audits)
  Sets-Step caller request rid k s w w' step (same_bucket, inl e) = rw e ignored
  Sets-Step caller request rid k s w w' step (same_bucket, inr (e, guard)) = rw e (
      set_review_state-state_of (Step k caller request (state_of k w.audits)) rid k s w.audits
        ignored
        (λ same.
          subst (λ x. Step x caller request (state_of x w.audits) (some s)) same (step guard)))

  Approves-Step :
      (caller : Option JwtClaims) (request : Request) (rid k : String) (w w' : World)
      {Guard : Type 0}
      → (Guard
          → (s : ReviewState) → (s ≡ approved) ⊎ (s ≡ final)
          → Step rid caller request (state_of rid w.audits) (some s))
      → Approves rid Guard w w'
      → Step k caller request (state_of k w.audits) (state_of k w'.audits)
  Approves-Step caller request rid k w w' step (inl (e, same_bucket)) = rw e ignored
  Approves-Step caller request rid k w w' step (inr (guard, kept, moved)) = set_or_both moved
    where
      at_k :
          (s : ReviewState)
          → (s ≡ approved) ⊎ (s ≡ final)
          → rid ≡ k
          → Step k caller request (state_of k w.audits) (some s)
      at_k s which same =
          subst (λ x. Step x caller request (state_of x w.audits) (some s)) same
            (step guard s which)

      once :
          Step k caller request
            (state_of k w.audits)
            (state_of k (set_review_state rid approved w.audits))
      once =
          set_review_state-state_of (Step k caller request (state_of k w.audits)) rid k approved
            w.audits ignored (at_k approved (inl refl))

      set_or_both :
          (w'.audits ≡ set_review_state rid approved w.audits)
            ⊎ (w'.audits ≡ set_review_state rid final (set_review_state rid approved w.audits))
          → Step k caller request (state_of k w.audits) (state_of k w'.audits)
      set_or_both (inl e) = rw e once
      set_or_both (inr e) = rw e (
          set_review_state-state_of (Step k caller request (state_of k w.audits)) rid k final
            (set_review_state rid approved w.audits) once (at_k final (inr refl)))

  approves_or_publishes :
      (caller : Option JwtClaims) (rid : String) (comment : Option String)
      (state : Option ReviewState)
      → (blocks_approval state ≡ false) × (may_review caller ≡ true)
      → (s : ReviewState) → (s ≡ approved) ⊎ (s ≡ final)
      → Step rid caller (approve rid comment) state (some s)
  approves_or_publishes caller rid comment state g s (inl e) =
      rw e (approving (blocks_approval-free state g.0).0 (blocks_approval-free state g.0).1 g.1)
  approves_or_publishes caller rid comment state g s (inr e) =
      rw e (publishing (blocks_approval-free state g.0).0 (blocks_approval-free state g.0).1 g.1)

  overrides_or_publishes :
      (caller : Option JwtClaims) (rid : String) (comment : Option String)
      (state : Option ReviewState)
      → (is_undecided state ≡ true) × (may_administer caller ≡ true)
      → (s : ReviewState) → (s ≡ approved) ⊎ (s ≡ final)
      → Step rid caller (overriding_approve rid comment) state (some s)
  overrides_or_publishes caller rid comment state g s (inl e) = rw e (approving_over g.0 g.1)
  overrides_or_publishes caller rid comment state g s (inr e) = rw e (publishing_over g.0 g.1)

  handle-Step :
      (caller : Option JwtClaims) (request : Request) (k : String) (w : World)
      → Step k caller request (state_of k w.audits) (state_of k (handle caller request w).1.audits)
  unfolding handle
  handle-Step caller (approve rid comment) k w =
      Approves-Step caller (approve rid comment) rid k w (handle caller (approve rid comment) w).1
        (approves_or_publishes caller rid comment (state_of rid w.audits))
        (approve_report-effect hash_user_id strip render_log entra caller rid comment w)
  handle-Step caller (reject rid reason) k w =
      Sets-Step caller (reject rid reason) rid k rejected w (handle caller (reject rid reason) w).1
        (λ g. rejecting (is_final-free (state_of rid w.audits) g.0) g.1)
        (reject_report-effect hash_user_id strip render_log entra caller rid w reason)
  handle-Step caller (revise rid reason comment) k w =
      Sets-Step caller (revise rid reason comment) rid k revision_requested w
        (handle caller (revise rid reason comment) w).1
        (λ g. revising (is_final-free (state_of rid w.audits) g.0) g.1)
        (request_revision-effect hash_user_id strip render_log entra caller rid w reason comment)
  handle-Step caller (cancel rid) k w =
      Sets-Step caller (cancel rid) rid k cancelled w (handle caller (cancel rid) w).1
        (λ g. cancelling g.0 g.1)
        (cancel_report-effect hash_user_id strip render_log entra caller rid w)
  handle-Step caller (overriding_approve rid comment) k w =
      Approves-Step caller (overriding_approve rid comment) rid k w
        (handle caller (overriding_approve rid comment) w).1
        (overrides_or_publishes caller rid comment (state_of rid w.audits))
        (override_approve-effect hash_user_id strip render_log entra caller rid comment w)
  handle-Step caller (overriding_reject rid comment) k w =
      Sets-Step caller (overriding_reject rid comment) rid k rejected w
        (handle caller (overriding_reject rid comment) w).1 (λ g. rejecting_over g.0 g.1)
        (override_reject-effect hash_user_id strip render_log entra caller rid w comment)

  -- Whatever requests arrive, from whom, and whatever calls fail: every report goes through one
  -- step for each request, in their order. A request moves no report but the one it names, and that
  -- only to the request's own states, from a state that allows it, for a caller with the role that
  -- it needs: a reviewer to approve, reject or revise, any known caller to cancel, and an
  -- administrator to override.
  pub serve-Trail :
      (requests : List (Option JwtClaims × Request)) (k : String) (w : World)
      → Trail k requests (state_of k w.audits) (state_of k (serve requests w).audits)
  unfolding serve
  serve-Trail [] k w = stay
  serve-Trail ((caller, request) ∷ rest) k w =
      then_step (handle-Step caller request k w) (serve-Trail rest k (handle caller request w).1)
