-- ===== src/Review/Publish.antt =====
-- `run` of apps/edr/graph/node_17_publish.py: the copies from staging to final, the approval log,
-- and the move of the review state to `final`.
use decision_center.Base.{
  Bool, true, false, Option, none, some, String, List, [], ◌∷◌, ◌++◌, filter_by,
}
use decision_center.Rbac.Reviewer.{Action, approve, admin_override, report_cancelled}
use decision_center.Review.Store.{
  ReviewState, approved, rejected, revision_requested, final, AuditRow, Decision, ObjectName, Exec,
  file_exists, Outcome, done, raised, pure, attempt, ◌>>=◌, ◌>>◌, init_schema, get_audit,
  get_review_decisions, update_review_state, copy_to_final, put_json,
}

pub data PublishStatus : Type 0 where
  blocked_until_approval publish_rejected publish_revision_requested published : PublishStatus

-- The entries of `publish_errors`, by the operation that failed.
pub data PublishError : Type 0 where
  persistence_unavailable log_failed state_failed : PublishError
  copy_failed : String → PublishError

-- The outputs that the node writes.
pub record Publication : Type 0 where
  pub status : PublishStatus
  pub final_keys : List ObjectName
  pub errors : List PublishError

-- `_ARTIFACT_NAMES`
abbrev pub artifact_names : List String
artifact_names =
    "executive-decision-report.md" ∷ "evidence-pack.json" ∷ "quality-gate-result.json"
    ∷ "report-draft.json" ∷ "audit-log.json" ∷ []

abbrev pub log_name : String
log_name = "approval-log.json"

unfoldable pub note_copy :
    String
    → String
    → Outcome ObjectName
    → List ObjectName × List PublishError
    → List ObjectName × List PublishError
note_copy rid filename (done key) (keys, errors) = (keys ++ key ∷ [], errors)
note_copy rid filename (raised file_exists) (keys, errors) =
    (keys ++ ("final", (rid, filename)) ∷ [], errors)
note_copy rid filename (raised e) (keys, errors) = (keys, errors ++ copy_failed filename ∷ [])

-- The `for filename in _ARTIFACT_NAMES` loop.
unfoldable pub copy_all :
    String
    → List String
    → List ObjectName × List PublishError
    → Exec (List ObjectName × List PublishError)
copy_all rid [] acc = pure acc
copy_all rid (filename ∷ rest) acc = do
  copied ← attempt (copy_to_final rid filename)
  copy_all rid rest (note_copy rid filename copied acc)

abbrev pub is_approval : Action → Bool
is_approval approve = true
is_approval admin_override = true
is_approval report_cancelled = false

abbrev pub note_log :
    String
    → Outcome ObjectName
    → List ObjectName × List PublishError
    → List ObjectName × List PublishError
note_log rid (done key) (keys, errors) = (keys ++ ("final", (rid, log_name)) ∷ [], errors)
note_log rid (raised e) (keys, errors) = (keys, errors ++ log_failed ∷ [])

abbrev pub note_state : Outcome Unit → List PublishError → List PublishError
note_state (done _) errors = errors
note_state (raised e) errors = errors ++ state_failed ∷ []

abbrev pub blocked : PublishStatus → Publication
blocked status = record { status = status; final_keys = []; errors = [] }

abbrev pub unavailable : Publication
unavailable = record {
  status = blocked_until_approval;
  final_keys = [];
  errors = persistence_unavailable ∷ [];
}

-- The hard stops: `none` where the code goes on to publish.
unfoldable pub stop_for : Option ReviewState → Option PublishStatus
stop_for (some rejected) = some publish_rejected
stop_for (some revision_requested) = some publish_revision_requested
stop_for (some approved) = none
stop_for (some final) = none
stop_for _ = some blocked_until_approval

-- The `try` block that reads the row and its decisions.
unfoldable pub read_review : String → Exec (Option AuditRow × List Decision)
read_review rid = do
  init_schema
  audit ← get_audit rid
  decisions ← get_review_decisions rid
  pure (audit, decisions)

-- `json.dumps` of the approval log, from the audit row, the approval and the final keys.
module _ (render_log : AuditRow → Decision → List ObjectName → String) where
  -- approval-log.json, where a decision counts as an approval
  unfoldable pub write_log :
      String
      → AuditRow
      → List Decision
      → List ObjectName × List PublishError
      → Exec (List ObjectName × List PublishError)
  write_log rid audit [] acc = pure acc
  write_log rid audit (latest ∷ _) acc = do
    written ← attempt (put_json "final" rid log_name (render_log audit latest acc.0))
    pure (note_log rid written acc)

  unfoldable pub publish_artifacts : String → AuditRow → List Decision → Exec Publication
  publish_artifacts rid audit decisions = do
    copied ← copy_all rid artifact_names ([], [])
    logged ← write_log rid audit (filter_by (λ d. is_approval d.action) decisions) copied
    moved ← attempt (update_review_state rid final)
    pure (record { status = published; final_keys = logged.0; errors = note_state moved logged.1 })

  unfoldable pub publish_or_stop :
      String → AuditRow → List Decision → Option PublishStatus → Exec Publication
  publish_or_stop rid audit decisions (some status) = pure (blocked status)
  publish_or_stop rid audit decisions none = publish_artifacts rid audit decisions

  unfoldable pub publish_read :
      String → Outcome (Option AuditRow × List Decision) → Exec Publication
  publish_read rid (raised e) = pure unavailable
  publish_read rid (done (none, decisions)) = pure (blocked blocked_until_approval)
  publish_read rid (done (some audit, decisions)) =
      publish_or_stop rid audit decisions (stop_for audit.review_state)

  -- `run`
  unfoldable pub publish : String → Exec Publication
  publish rid = do row ← attempt (read_review rid); publish_read rid row
