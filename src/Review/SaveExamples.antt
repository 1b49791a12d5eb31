-- ===== src/Review/SaveExamples.antt =====
-- The theorem on node_15, on a report with two exports of which the second cannot be stored.
use decision_center.Base.{true, false, none, some, String, [], ◌∷◌, refl, all_of}
use decision_center.Review.Store.{
  World, pure, attempt, modify, ◌>>=◌, external, init_schema, put_json, put_object,
}
use decision_center.Review.SaveAudit.{
  Draft, Saved, save_audit, save_all, save_row, save_artifacts, save_report, save_exports,
  save_draft, save, validate, put_bytes, insert_audit, requires_approval, qg_failure_reason,
}
use decision_center.Review.Staged.{Recorded, save_audit-Recorded}

abbrev budget_report : Draft
budget_report = record {
  request = "r-1";
  user_id_hash = "bob";
  gate = some "passed";
  intents = "budget_actual" ∷ [];
  completeness = "full";
  exports = ("md", some "# Report") ∷ ("pdf", some "%PDF") ∷ [];
  placeholder = "";
  evidence_pack = "{}";
  qg_result = "{}";
  report_json = none;
  record_valid = true;
  audit_record = λ keys. "{}";
}

abbrev flaky : World
flaky = record {
  audits = [];
  decisions = [];
  events = [];
  bucket = [];
  faults = false ∷ false ∷ false ∷ true ∷ [];
}

abbrev staged : String → String × (String × String)
staged name = ("staging", ("r-1", name))

abbrev degraded : Saved
degraded = record {
  persisted = false;
  artifact_keys =
      staged "executive-decision-report.md"
      ∷ staged "evidence-pack.json"
      ∷ staged "quality-gate-result.json"
      ∷ staged "audit-log.json"
      ∷ [];
  approval_required = true;
  failure_reason = none;
  audit_errors = "report_export.pdf" ∷ [];
}

save_audit-Recorded_example : Recorded budget_report degraded (save_audit budget_report flaky).1
unfolding save_audit attempt external ◌>>=◌ save_all save_row save_artifacts save_report
    save_exports save validate put_bytes put_json put_object modify pure save_draft init_schema
    insert_audit requires_approval qg_failure_reason all_of
save_audit-Recorded_example = save_audit-Recorded budget_report flaky degraded refl
