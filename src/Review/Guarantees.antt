-- ===== src/Review/Guarantees.antt =====
-- What sequences of review requests can never do.
use decision_center.Base.{
  Bool, true, false, Option, none, some, String, List, [], ◌∷◌, ◌≡◌, ◌≢◌, ◌⊎◌, inl, inr, refl, ◌∙◌,
  arith, All,
}
use decision_center.Base.Dict.{lookup}
use decision_center.Rbac.{role_permissions}
use decision_center.Rbac.Reviewer.{
  JwtClaims, reviewer_action, check_reviewer_rbac, require_admin, admin_only,
}
use decision_center.Review.Store.{
  ReviewState, final, AuditRow, Decision, ObjectName, World, object_key,
}
use decision_center.Review.Rows.{state_of}
use decision_center.Review.Publish.{log_name}
use decision_center.Review.Publishing.{KeepsFinal}
use decision_center.Review.Effects.{
  Sets, may_review, may_administer, reject_report-effect, request_revision-effect,
  cancel_report-effect, override_reject-effect,
}
use decision_center.Review.Approval.{Approves, approve_report-effect, override_approve-effect}
use decision_center.Review.Machine.{
  Step, ignored, approving, publishing, rejecting, revising, cancelling, approving_over,
  publishing_over, rejecting_over, Trail, stay, then_step, Request, approve, reject, revise, cancel,
  overriding_approve, overriding_reject, handle, serve, serve-Trail,
}

Step-final :
    {k : String} {caller : Option JwtClaims} {request : Request} {s t : Option ReviewState}
    → Step k caller request s t
    → s ≡ some final
    → t ≡ some final
Step-final ignored e = e
Step-final (approving h k may) e = absurd (h e)
Step-final (publishing h k may) e = refl
Step-final (rejecting h may) e = absurd (h e)
Step-final (revising h may) e = absurd (h e)
Step-final (cancelling h may) e = cc
Step-final (approving_over h may) e = cc
Step-final (publishing_over h may) e = refl
Step-final (rejecting_over h may) e = cc

Trail-final :
    {k : String} {requests : List (Option JwtClaims × Request)} {s t : Option ReviewState}
    → Trail k requests s t
    → s ≡ some final
    → t ≡ some final
Trail-final stay e = e
Trail-final (then_step step rest) e = Trail-final rest (Step-final step e)

-- An administrator passes the reviewers' check.
admin_reviews :
    (caller : Option JwtClaims) → may_administer caller ≡ true → may_review caller ≡ true
unfolding require_admin check_reviewer_rbac reviewer_action admin_only role_permissions
admin_reviews none h = cc
admin_reviews (some claims) h = ground arith

module _ (hash_user_id : String → String) (strip : String → String)
    (render_log : AuditRow → Decision → List ObjectName → String) (entra : Bool) where
  -- A report whose review state is final stays final: over every sequence of approve, reject,
  -- revision, cancel and override requests, by any callers, whichever service calls fail.
  pub serve-final :
      (requests : List (Option JwtClaims × Request)) (k : String) (w : World)
      → state_of k w.audits ≡ some final
      → state_of k (serve hash_user_id strip render_log entra requests w).audits ≡ some final
  serve-final requests k w h =
      Trail-final (serve-Trail hash_user_id strip render_log entra requests k w) h

  -- What a handler does to the bucket, and who may make it do so.
  Touches : Option JwtClaims → World → World → Type 0
  Touches caller w w' = KeepsFinal w w' × ((w'.bucket ≡ w.bucket) ⊎ (may_review caller ≡ true))

  Sets-Touches :
      (caller : Option JwtClaims) (rid : String) (s : ReviewState) (w w' : World) {Guard : Type 0}
      → Sets rid s Guard w w'
      → Touches caller w w'
  unfolding Touches
  Sets-Touches caller rid s w w' (e, rest) = (λ k f body other h. rw e h, inl e)

  Approves-Touches :
      (caller : Option JwtClaims) (rid : String) (w w' : World) {Guard : Type 0}
      → (Guard → may_review caller ≡ true)
      → Approves rid Guard w w'
      → Touches caller w w'
  unfolding Touches
  Approves-Touches caller rid w w' may (inl (same, e)) = (λ k f body other h. rw e h, inl e)
  Approves-Touches caller rid w w' may (inr (guard, kept, rest)) = (kept, inr (may guard))

  handle-Touches :
      (caller : Option JwtClaims) (request : Request) (w : World)
      → Touches caller w (handle hash_user_id strip render_log entra caller request w).1
  unfolding handle
  handle-Touches caller (approve rid comment) w =
      Approves-Touches caller rid w
        (handle hash_user_id strip render_log entra caller (approve rid comment) w).1 (λ g. g.1)
        (approve_report-effect hash_user_id strip render_log entra caller rid comment w)
  handle-Touches caller (reject rid reason) w =
      Sets-Touches caller rid _ w
        (handle hash_user_id strip render_log entra caller (reject rid reason) w).1
        (reject_report-effect hash_user_id strip render_log entra caller rid w reason)
  handle-Touches caller (revise rid reason comment) w =
      Sets-Touches caller rid _ w
        (handle hash_user_id strip render_log entra caller (revise rid reason comment) w).1
        (request_revision-effect hash_user_id strip render_log entra caller rid w reason comment)
  handle-Touches caller (cancel rid) w =
      Sets-Touches caller rid _ w
        (handle hash_user_id strip render_log entra caller (cancel rid) w).1
        (cancel_report-effect hash_user_id strip render_log entra caller rid w)
  handle-Touches caller (overriding_approve rid comment) w =
      Approves-Touches caller rid w
        (handle hash_user_id strip render_log entra caller (overriding_approve rid comment) w).1
        (λ g. admin_reviews caller g.1)
        (override_approve-effect hash_user_id strip render_log entra caller rid comment w)
  handle-Touches caller (overriding_reject rid comment) w =
      Sets-Touches caller rid _ w
        (handle hash_user_id strip render_log entra caller (overriding_reject rid comment) w).1
        (override_reject-effect hash_user_id strip render_log entra caller rid w comment)

  -- Write-once: over every sequence of requests, a final artifact other than the approval log
  -- keeps the content that it has, whichever service calls fail.
  pub serve-KeepsFinal :
      (requests : List (Option JwtClaims × Request)) (w : World) (k f body : String)
      → f ≢ log_name
      → lookup ("final", (k, f)) w.bucket ≡ some body
      → lookup ("final", (k, f)) (serve hash_user_id strip render_log entra requests w).bucket
        ≡ some body
  unfolding serve Touches
  serve-KeepsFinal [] w k f body other h = h
  serve-KeepsFinal ((caller, request) ∷ rest) w k f body other h =
      serve-KeepsFinal rest (handle hash_user_id strip render_log entra caller request w).1 k f body
        other ((handle-Touches caller request w).0 k f body other h)

  -- Where no caller of a sequence passes the reviewers' check, nothing is written to the bucket.
  pub serve_unreviewed :
      (requests : List (Option JwtClaims × Request)) (w : World)
      → All (λ r. may_review r.0 ≡ false) requests
      → (serve hash_user_id strip render_log entra requests w).bucket ≡ w.bucket
  unfolding serve Touches
  serve_unreviewed [] w h = refl
  serve_unreviewed ((caller, request) ∷ rest) w h = elim (handle-Touches caller request w).1 [
    | inl e ↦
        serve_unreviewed rest (handle hash_user_id strip render_log entra caller request w).1 h.1
        ∙ e
    | inr may ↦ cc (may, h.0)
  ]
