-- ===== src/Review/Approval.antt =====
-- What the two approving handlers can do to the audit table and to the bucket.
use decision_center.Base.{Bool, true, false, Option, String, List, ◌≡◌, ◌⊎◌, arith}
use decision_center.Rbac.Reviewer.{JwtClaims, Action, require_claims}
use decision_center.Review.Store.{
  approved, final, AuditRow, Decision, ObjectName, World, ◌>>=◌, external, gets, modify, pure,
  throw, find_audit, set_review_state, insert_review_decision, update_review_state, get_audit,
  init_schema, insert_admin_event,
}
use decision_center.Review.Rows.{state_of}
use decision_center.Review.Publishing.{KeepsFinal, publish-Moved}
use decision_center.Review.Effects.{
  may_review, may_administer, is_undecided, queued_row-is_undecided,
}
use decision_center.Review.Handlers.{
  blocks_approval, set_and_publish, approve_and_publish, approve_row, approve_report,
  override_approve, checked, found_audit, refuse_if, load_audit,
}

-- Nothing but decisions and events is written, or the report is approved and perhaps published.
abbrev pub Approves : String → Type 0 → World → World → Type 0
Approves rid Guard w w' =
    ((w'.audits ≡ w.audits) × (w'.bucket ≡ w.bucket))
    ⊎ (Guard
        × KeepsFinal w w'
        × ((w'.audits ≡ set_review_state rid approved w.audits)
            ⊎ (w'.audits ≡ set_review_state rid final (set_review_state rid approved w.audits))))

module _ (hash_user_id : String → String) (strip : String → String)
    (render_log : AuditRow → Decision → List ObjectName → String) (entra : Bool) where
  set_and_publish-effect :
      (rid : String) (w : World)
      → Approves rid Unit w (set_and_publish hash_user_id strip render_log entra rid w).1
  unfolding set_and_publish external modify update_review_state ◌>>=◌
  set_and_publish-effect rid w = grind (arith, publish-Moved)

  approve_and_publish-effect :
      (rid : String) (d : Decision) (w : World)
      → Approves rid Unit w (approve_and_publish hash_user_id strip render_log entra rid d w).1
  unfolding approve_and_publish external modify insert_review_decision ◌>>=◌
  approve_and_publish-effect rid d w = grind (arith, set_and_publish-effect)

  approve_row-effect :
      (claims : JwtClaims) (action : Action) (rid : String) (comment : Option String)
      (audit : AuditRow) (w : World)
      → Approves rid
          (blocks_approval audit.review_state ≡ false)
          w
          (approve_row hash_user_id strip render_log entra claims action rid comment audit w).1
  unfolding approve_row refuse_if pure throw ◌>>=◌
  approve_row-effect claims action rid comment audit w = grind (arith, approve_and_publish-effect)

  pub approve_report-effect :
      (caller : Option JwtClaims) (rid : String) (comment : Option String) (w : World)
      → Approves rid
          ((blocks_approval (state_of rid w.audits) ≡ false) × (may_review caller ≡ true))
          w
          (approve_report hash_user_id strip render_log entra caller rid comment w).1
  unfolding approve_report checked found_audit refuse_if load_audit external gets pure throw
      get_audit init_schema ◌>>=◌ require_claims
  approve_report-effect caller rid comment w = grind (arith, approve_row-effect)

  pub override_approve-effect :
      (caller : Option JwtClaims) (rid : String) (comment : Option String) (w : World)
      → Approves rid
          ((is_undecided (state_of rid w.audits) ≡ true) × (may_administer caller ≡ true))
          w
          (override_approve hash_user_id strip render_log entra caller rid comment w).1
  unfolding override_approve checked found_audit refuse_if load_audit external gets modify pure
      throw get_audit init_schema insert_admin_event ◌>>=◌ require_claims
  override_approve-effect caller rid comment w =
      grind (arith, approve_and_publish-effect, queued_row-is_undecided (find_audit rid w.audits))
