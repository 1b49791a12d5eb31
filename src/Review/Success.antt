-- ===== src/Review/Success.antt =====
-- Approval where no service call fails: what it answers, and all that it writes.
use decision_center.Base.{
  Bool, true, false, Option, none, some, String, List, [], ◌∷◌, ◌≡◌, refl, ◌∙◌, arith, str_eq,
  eq_refl, contains, filter_by, all_of, all_of-contains, not, All,
}
use decision_center.Base.Dict.{Dict, lookup, insert, lookup-insert, string_key}
use decision_center.Rbac.Reviewer.{JwtClaims, allowed, Action, require_claims, check_reviewer_rbac}
use decision_center.Review.Store.{
  Outcome, done, approved, final, AuditRow, Decision, ObjectName, World, ◌>>=◌, external, gets,
  modify, pure, throw, attempt, find_audit, set_review_state, update_review_state, get_audit,
  get_review_decisions, init_schema, put_object, insert_review_decision, put_json, object_key,
  decisions_of,
}
use decision_center.Review.Rows.{find_audit-set_review_state}
use decision_center.Review.Publish.{
  log_name, artifact_names, write_log, publish_artifacts, published, Publication, PublishError,
  publish, publish_read, publish_or_stop, read_review, stop_for, is_approval,
}
use decision_center.Review.Handlers.{
  Reply, blocks_approval, set_and_publish, approve_and_publish, approve_row, approve_report,
  checked, found_audit, refuse_if, load_audit, decision_by, lacks_comment,
}
use decision_center.Review.Archive.{
  calm, archived, all_copied, copy_all-copied, copy_all-done, all_copied-final,
}

-- A world that differs from another in its bucket only, and there not in the report's artifacts.
abbrev pub LogWritten : String → World → World → Type 0
LogWritten rid w w' =
    (b : Dict ObjectName String) × (w' ≡ calm (record w { bucket = b }))
    × ((g : String)
        → str_eq log_name g ≡ false
        → lookup ("final", (rid, g)) b ≡ lookup ("final", (rid, g)) w.bucket)

module _ (render_log : AuditRow → Decision → List ObjectName → String) where
  write_log-LogWritten :
      (rid : String) (audit : AuditRow) (ds : List Decision)
      (acc : List ObjectName × List PublishError) (w : World)
      → (end : List ObjectName × List PublishError) × ((write_log render_log rid audit ds acc
            (calm w)).0
          ≡ done end)
        × LogWritten rid w (write_log render_log rid audit ds acc (calm w)).1
  unfolding write_log put_json external attempt pure put_object modify ◌>>=◌
  write_log-LogWritten rid audit [] acc w = (acc, refl, (w.bucket, refl, λ g e. refl))
  write_log-LogWritten rid audit (d ∷ ds) acc w = (
    _,
    refl,
    (
      insert ("final", (rid, log_name)) (render_log audit d acc.0) w.bucket,
      refl,
      λ g e.
          lookup-insert ("final", (rid, log_name)) ("final", (rid, g)) (render_log audit d acc.0)
            w.bucket
          ∙ rw (e, eq_refl rid) refl,
    ),
  )

  not_log : (g : String) → contains g artifact_names ≡ true → str_eq log_name g ≡ false
  not_log g m = ground (
    arith,
    all_of-contains g (λ x. not (str_eq log_name x)) artifact_names (unfold all_of in refl) m,
  )

  -- The publication of a report whose row allows it.
  abbrev pub Published : String → World → Outcome Publication × World → Type 0
  Published rid w (out, w') =
      (p : Publication) × (out ≡ done p)
      × (p.status ≡ published)
      × (b : Dict ObjectName String) × (w'
          ≡ calm (record w { audits = set_review_state rid final w.audits; bucket = b }))
      × ((g : String)
          → contains g artifact_names ≡ true
          → lookup ("final", (rid, g)) b ≡ archived rid g w.bucket)

  publish_artifacts-Published :
      (rid : String) (audit : AuditRow) (ds : List Decision) (w : World)
      → Published rid w (publish_artifacts render_log rid audit ds (calm w))
  unfolding publish_artifacts external attempt pure modify update_review_state ◌>>=◌
  publish_artifacts-Published rid audit ds w =
      let (acc, h0) = copy_all-done rid artifact_names ([], []) (calm w) in
      let h1 = copy_all-copied rid artifact_names ([], []) w in
      let w1 : World = record w { bucket = all_copied rid artifact_names w.bucket } in
      let (logged, k0, (b, k1, kept)) =
        write_log-LogWritten rid audit (filter_by (λ d. is_approval d.action) ds) acc w1 in
      rw (h0, h1, k0, k1)
        (
          _,
          refl,
          refl,
          b,
          refl,
          λ g m.
              kept g (not_log g m) ∙ (all_copied-final rid g artifact_names w.bucket ∙ rw m refl),
        )

  publish-Published :
      (rid : String) (row : AuditRow) (w : World)
      → find_audit rid w.audits ≡ some row
      → stop_for row.review_state ≡ none
      → Published rid w (publish render_log rid (calm w))
  unfolding publish read_review publish_read publish_or_stop external attempt pure init_schema
      get_audit get_review_decisions gets ◌>>=◌
  publish-Published rid row w found go =
      rw (found, go) (publish_artifacts-Published rid row (decisions_of rid w.decisions) w)

All-artifacts :
    (P : String → Type 0)
    → ((g : String) → contains g artifact_names ≡ true → P g)
    → All P artifact_names
unfolding contains
All-artifacts P f = (f _ refl, (f _ refl, (f _ refl, (f _ refl, (f _ refl, tt)))))

approved_row :
    (rid : String) (row : AuditRow) (rows : List AuditRow)
    → find_audit rid rows ≡ some row
    → find_audit rid (set_review_state rid approved rows)
      ≡ some (record row { review_state = some approved })
approved_row rid row rows found =
    find_audit-set_review_state rid rid approved rows ∙ rw (eq_refl rid, found) refl

module _ (hash_user_id strip : String → String)
    (render_log : AuditRow → Decision → List ObjectName → String) (entra : Bool) where
  -- What an approval of a report answers and writes.
  abbrev pub ApprovedBy :
      JwtClaims → Action → String → Option String → World → Outcome Reply × World → Type 0
  ApprovedBy claims action rid comment w end =
      (b : Dict ObjectName String) × (end ≡ (
        done (record { new_state = approved; publish_status = some published }),
        record w {
          audits = set_review_state rid final (set_review_state rid approved w.audits);
          decisions =
              decision_by hash_user_id strip render_log entra claims rid action none comment
              ∷ w.decisions;
          bucket = b;
          faults = [];
        },
      ))
      × All (λ f. lookup ("final", (rid, f)) b ≡ archived rid f w.bucket) artifact_names

  approve_row-ApprovedBy :
      (claims : JwtClaims) (action : Action) (rid : String) (comment : Option String)
      (row : AuditRow) (w : World)
      → find_audit rid w.audits ≡ some row
      → blocks_approval row.review_state ≡ false
      → ApprovedBy claims action rid comment w
          (approve_row hash_user_id strip render_log entra claims action rid comment row (calm w))
  unfolding approve_row approve_and_publish set_and_publish refuse_if external modify pure throw
      insert_review_decision update_review_state ◌>>=◌ stop_for
  approve_row-ApprovedBy claims action rid comment row w found undecided =
      let w2 : World = record w {
        audits = set_review_state rid approved w.audits;
        decisions =
            decision_by hash_user_id strip render_log entra claims rid action none comment
            ∷ w.decisions;
      } in
      let (p, out, status, b, world, held) =
        publish-Published render_log rid (record row { review_state = some approved }) w2
          (approved_row rid row w.audits found) refl in
      (
        b,
        rw (undecided, out, world, status) refl,
        All-artifacts (λ f. lookup ("final", (rid, f)) b ≡ archived rid f w.bucket) held,
      )

  -- An approval where no service call fails: a reviewer whose comment, if the action asks for one,
  -- is there, on a report that is neither final nor rejected. It answers `approved` and `published`,
  -- adds the reviewer's decision, leaves the report final, and the final area holds each of the
  -- artifacts, as it held it or else as it is staged.
  pub approve_report-ApprovedBy :
      (claims : JwtClaims) (action : Action) (rid : String) (comment : Option String)
      (row : AuditRow) (w : World)
      → check_reviewer_rbac claims ≡ allowed action
      → lacks_comment strip action comment ≡ false
      → find_audit rid w.audits ≡ some row
      → blocks_approval row.review_state ≡ false
      → ApprovedBy claims action rid comment w
          (approve_report hash_user_id strip render_log entra (some claims) rid comment (calm w))
  unfolding approve_report require_claims checked found_audit refuse_if load_audit external gets
      pure throw get_audit init_schema ◌>>=◌
  approve_report-ApprovedBy claims action rid comment row w may said found undecided =
      rw (may, said, found) (approve_row-ApprovedBy claims action rid comment row w found undecided)
