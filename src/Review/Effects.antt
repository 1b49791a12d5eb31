-- ===== src/Review/Effects.antt =====
-- What each handler that does not publish can do to the audit table and to the bucket.
use decision_center.Base.{
  Bool, true, false, Option, none, some, String, List, ◌≡◌, ◌≢◌, ◌⊎◌, refl, arith, not,
}
use decision_center.Rbac.Reviewer.{
  JwtClaims, Checked, allowed, http, require_claims, check_reviewer_rbac, require_admin,
}
use decision_center.Review.Store.{
  ReviewState, staging, needs_review, rejected, final, revision_requested, cancelled, AuditRow,
  Decision, ObjectName, World, ◌>>=◌, external, gets, modify, pure, throw, find_audit,
  set_review_state, insert_review_decision, update_review_state, get_audit, init_schema,
  insert_admin_event,
}
use decision_center.Review.Rows.{row_state, state_of}
use decision_center.Review.Handlers.{
  is_final, not_cancellable, in_approval_queue, derive_external_state, reject_report,
  request_revision, cancel_row, cancel_report, override_reject, checked, found_audit, refuse_if,
  load_audit, gate_state,
}

-- Whether the caller passes `_check_reviewer_rbac`.
abbrev pub is_allowed : {A : Type 0} → Checked A → Bool
is_allowed (allowed _) = true
is_allowed (http _) = false

abbrev pub may_review : Option JwtClaims → Bool
may_review none = false
may_review (some claims) = is_allowed (check_reviewer_rbac claims)

abbrev pub may_administer : Option JwtClaims → Bool
may_administer caller = is_allowed (require_admin caller)

-- The bucket stays as it was, and the audit table too or but for one state.
abbrev pub Sets : String → ReviewState → Type 0 → World → World → Type 0
Sets rid s Guard w w' =
    (w'.bucket ≡ w.bucket)
    × ((w'.audits ≡ w.audits) ⊎ ((w'.audits ≡ set_review_state rid s w.audits) × Guard))

-- A report that is no longer open to cancellation.
abbrev pub is_closed : Option ReviewState → Bool
is_closed (some final) = true
is_closed (some rejected) = true
is_closed (some cancelled) = true
is_closed _ = false

-- A report on which nobody has decided yet.
abbrev pub is_undecided : Option ReviewState → Bool
is_undecided none = true
is_undecided (some staging) = true
is_undecided (some needs_review) = true
is_undecided _ = false

-- The tests of the handlers on the external state, against the column they read.
abbrev cancellable_row : Option AuditRow → Bool
cancellable_row none = false
cancellable_row (some row) = not (not_cancellable (derive_external_state row))

abbrev pub queued_row : Option AuditRow → Bool
queued_row none = false
queued_row (some row) = in_approval_queue (derive_external_state row)

gate_state_open : (gate : Option String) → not_cancellable (gate_state gate) ≡ false
gate_state_open none = refl
gate_state_open (some gate) = ground arith

cancellable_row-is_closed :
    (o : Option AuditRow) → cancellable_row o ≡ true → is_closed (row_state o) ≡ false
unfolding derive_external_state
cancellable_row-is_closed none h = refl
cancellable_row-is_closed (some row) h = ground arith

pub queued_row-is_undecided :
    (o : Option AuditRow) → queued_row o ≡ true → is_undecided (row_state o) ≡ true
unfolding derive_external_state
queued_row-is_undecided none h = refl
queued_row-is_undecided (some row) h = ground arith

module _ (hash_user_id : String → String) (strip : String → String)
    (render_log : AuditRow → Decision → List ObjectName → String) (entra : Bool)
    (rid : String) where
  cancel_row-effect :
      (claims : JwtClaims) (audit : AuditRow) (w : World)
      → Sets rid cancelled
          (is_closed audit.review_state ≡ false)
          w
          (cancel_row hash_user_id strip render_log entra claims rid audit w).1
  unfolding cancel_row refuse_if external modify pure throw insert_review_decision
      update_review_state ◌>>=◌
  cancel_row-effect claims audit w = ground (arith, cancellable_row-is_closed (some audit))

module _ (hash_user_id : String → String) (strip : String → String)
    (render_log : AuditRow → Decision → List ObjectName → String) (entra : Bool)
    (caller : Option JwtClaims) (rid : String) (w : World) where
  pub reject_report-effect :
      (reason : Option String)
      → Sets rid rejected
          ((is_final (state_of rid w.audits) ≡ false) × (may_review caller ≡ true))
          w
          (reject_report hash_user_id strip render_log entra caller rid reason w).1
  unfolding reject_report checked found_audit refuse_if load_audit external gets modify pure throw
      insert_review_decision update_review_state get_audit init_schema ◌>>=◌ require_claims
  reject_report-effect reason = ground arith

  pub request_revision-effect :
      (reason comment : Option String)
      → Sets rid revision_requested
          ((is_final (state_of rid w.audits) ≡ false) × (may_review caller ≡ true))
          w
          (request_revision hash_user_id strip render_log entra caller rid reason comment w).1
  unfolding request_revision checked found_audit refuse_if load_audit external gets modify pure
      throw insert_review_decision update_review_state get_audit init_schema ◌>>=◌ require_claims
  request_revision-effect reason comment = ground arith

  pub cancel_report-effect :
      Sets rid cancelled
        ((is_closed (state_of rid w.audits) ≡ false) × (caller ≢ none))
        w
        (cancel_report hash_user_id strip render_log entra caller rid w).1
  unfolding cancel_report checked found_audit external gets pure throw get_audit init_schema ◌>>=◌
      require_claims
  cancel_report-effect = grind (arith, cancel_row-effect)

  pub override_reject-effect :
      (comment : Option String)
      → Sets rid rejected
          ((is_undecided (state_of rid w.audits) ≡ true) × (may_administer caller ≡ true))
          w
          (override_reject hash_user_id strip render_log entra caller rid comment w).1
  unfolding override_reject checked found_audit refuse_if load_audit external gets modify pure throw
      insert_review_decision insert_admin_event update_review_state get_audit init_schema ◌>>=◌
  override_reject-effect comment = ground (arith, queued_row-is_undecided (find_audit rid w.audits))
