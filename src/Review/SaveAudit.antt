-- ===== src/Review/SaveAudit.antt =====
-- apps/edr/graph/node_15_save_audit.py: the staging artifacts and the audit row of a report, and
-- node_16_review.py, which reads the review state back. Bodies of artifacts are texts; what
-- json.dumps makes of the evidence pack, the gate's result, the draft and the audit record is an
-- argument, as is whether the audit record passes the validation of `AuditArtifact`.
use Prim.Native.String.{◌++◌ as ◌+++◌}
use decision_center.Base.{
  Bool, true, false, Option, none, some, String, List, [], ◌∷◌, ◌++◌, ℕ, str_eq, if◌then◌else◌,
  all_of, is_empty, length,
}
use decision_center.Review.Store.{
  ReviewState, staging, approved, rejected, revision_requested, final, AuditRow, Decision,
  ObjectName, Exec, Outcome, done, raised, backend, pure, throw, modify, attempt, ◌>>=◌, ◌>>◌,
  external, init_schema, put_json, get_audit, get_review_decisions,
}

-- `put_bytes`: the same calls as `put_json`
unfoldable pub put_bytes : String → String → String → String → Exec ObjectName
put_bytes prefix rid filename body = put_json prefix rid filename body

-- INSERT INTO audit_log ... ON CONFLICT (request_id) DO UPDATE SET ...
unfoldable pub upsert_audit : AuditRow → List AuditRow → List AuditRow
upsert_audit new [] = new ∷ []
upsert_audit new (row ∷ rows) =
    if str_eq row.request_id new.request_id then new ∷ rows else row ∷ upsert_audit new rows

unfoldable pub insert_audit : AuditRow → Exec Unit
insert_audit row = do external; modify (λ w. record w { audits = upsert_audit row w.audits })

-- `_requires_approval`: `_DRAFT_ONLY_INTENTS` has one intent
unfoldable pub requires_approval : List String → Bool
requires_approval [] = true
requires_approval (intent ∷ intents) =
    if all_of (λ i. str_eq i "document_control") (intent ∷ intents) then false else true

-- `_compute_qg_failure_reason`
unfoldable pub qg_failure_reason : String → String → Option String
qg_failure_reason evidence_completeness gate =
    if str_eq gate "failed"
    then (if str_eq evidence_completeness "none_enabled"
        then some "evidence"
        else some "analytical")
    else none

-- What the node reads of the state.
pub record Draft : Type 0 where
  pub request : String
  pub user_id_hash : String
  pub gate : Option String
  pub intents : List String
  -- `evidence_completeness`, "unknown" where it is not set
  pub completeness : String
  -- `report_exports_raw`: a format's bytes, or `none` for a value that is not bytes
  pub exports : List (String × Option String)
  pub placeholder : String
  pub evidence_pack : String
  pub qg_result : String
  pub report_json : Option String
  pub record_valid : Bool
  pub audit_record : List ObjectName → String

-- The object keys so far and the operations that failed.
abbrev pub Progress : Type 0
Progress = List ObjectName × List String

abbrev pub noted : String → Progress → Outcome ObjectName → Progress
noted operation (keys, errors) (done key) = (keys ++ key ∷ [], errors)
noted operation (keys, errors) (raised e) = (keys, errors ++ operation ∷ [])

-- try: key = minio.put...(...) except Exception: the error is noted
unfoldable pub save : String → Exec ObjectName → Progress → Exec Progress
save operation put progress = do written ← attempt put; pure (noted operation progress written)

unfoldable pub save_exports : String → List (String × Option String) → Progress → Exec Progress
save_exports rid [] progress = pure progress
save_exports rid ((fmt, none) ∷ rest) progress = save_exports rid rest progress
save_exports rid ((fmt, some body) ∷ rest) progress = do
  next ←
      save ("report_export." +++ fmt)
        (put_bytes "staging" rid ("executive-decision-report." +++ fmt) body) progress
  save_exports rid rest next

-- The exports, or the placeholder where the gate blocked them.
unfoldable pub save_report : Draft → Exec Progress
save_report d =
    if is_empty d.exports
    then save "report_export.md"
        (put_bytes "staging" d.request "executive-decision-report.md" d.placeholder) ([], [])
    else save_exports d.request d.exports ([], [])

unfoldable pub save_draft : String → Option String → Progress → Exec Progress
save_draft rid none progress = pure progress
save_draft rid (some body) progress =
    save "report_draft" (put_json "staging" rid "report-draft.json" body) progress

-- `AuditArtifact(...)` raises where a field has the wrong shape; `backend` stands for that too.
unfoldable pub validate : Bool → Exec Unit
validate valid = if valid then pure tt else throw backend

unfoldable pub save_artifacts : Draft → Exec Progress
save_artifacts d = do
  report ← save_report d
  validate d.record_valid
  pack ←
      save "evidence_pack" (put_json "staging" d.request "evidence-pack.json" d.evidence_pack)
        report
  result ←
      save "quality_gate_result"
        (put_json "staging" d.request "quality-gate-result.json" d.qg_result) pack
  draft ← save_draft d.request d.report_json result
  save "audit_artifact" (put_json "staging" d.request "audit-log.json" (d.audit_record draft.0))
      draft

-- `outputs.get("quality_gate", "needs_review")`
abbrev pub gate_of : Option String → String
gate_of none = "needs_review"
gate_of (some gate) = gate

abbrev pub audit_row : Draft → AuditRow
audit_row d = record {
  request_id = d.request;
  user_id_hash = d.user_id_hash;
  quality_gate_status = some (gate_of d.gate);
  review_state = some staging;
}

-- What the node writes to the outputs.
pub record Saved : Type 0 where
  pub persisted : Bool
  pub artifact_keys : List ObjectName
  pub approval_required : Bool
  pub failure_reason : Option String
  pub audit_errors : List String

abbrev pub row_error : Outcome Unit → List String → List String
row_error (done tt) errors = errors
row_error (raised e) errors = errors ++ "postgres_audit" ∷ []

abbrev pub report_saved : Draft → Progress → Outcome Unit → Saved
report_saved d (keys, errors) row = record {
  persisted = is_empty (row_error row errors);
  artifact_keys = keys;
  approval_required = requires_approval d.intents;
  failure_reason = qg_failure_reason d.completeness (gate_of d.gate);
  audit_errors = row_error row errors;
}

unfoldable pub save_row : Draft → Progress → Exec Saved
save_row d progress = do
  row ← attempt (init_schema >> insert_audit (audit_row d))
  pure (report_saved d progress row)

unfoldable pub save_all : Draft → Exec Saved
save_all d = do progress ← save_artifacts d; save_row d progress

-- The stores cannot be had: nothing is written, and the later outputs are not set.
abbrev pub nothing_saved : Saved
nothing_saved = record {
  persisted = false;
  artifact_keys = [];
  approval_required = true;
  failure_reason = none;
  audit_errors = "store_init" ∷ [];
}

abbrev pub with_stores : Draft → Outcome Unit → Exec Saved
with_stores d (done tt) = save_all d
with_stores d (raised e) = pure nothing_saved

-- `run` of node_15
unfoldable pub save_audit : Draft → Exec Saved
save_audit d = do stores ← attempt external; with_stores d stores

-- `status_map`
abbrev pub review_status : Option ReviewState → String
review_status (some approved) = "approved"
review_status (some rejected) = "rejected"
review_status (some revision_requested) = "revision_requested"
review_status (some final) = "approved"
review_status _ = "pending"

-- `audit.get("review_state", "staging")`, "staging" where there is no row
abbrev pub state_or_staging : Option AuditRow → Option ReviewState
state_or_staging none = some staging
state_or_staging (some row) = row.review_state

-- human_review_status, review_state and review_decisions_count
pub record HumanReview : Type 0 where
  pub human_review_status : String
  pub read_state : Option ReviewState
  pub decisions_count : ℕ

abbrev pub shown_review : Option AuditRow × List Decision → HumanReview
shown_review (audit, decisions) = record {
  human_review_status = review_status (state_or_staging audit);
  read_state = state_or_staging audit;
  decisions_count = length decisions;
}

unfoldable pub read_both : String → Exec (Option AuditRow × List Decision)
read_both rid = do
  init_schema
  audit ← get_audit rid
  decisions ← get_review_decisions rid
  pure (audit, decisions)

abbrev pub or_nothing : Outcome (Option AuditRow × List Decision) → Option AuditRow × List Decision
or_nothing (done read) = read
or_nothing (raised e) = (none, [])

-- `run` of node_16
unfoldable pub review_node : String → Exec HumanReview
review_node rid = do read ← attempt (read_both rid); pure (shown_review (or_nothing read))
