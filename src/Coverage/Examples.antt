-- ===== src/Coverage/Examples.antt =====
-- The theorems on the coverage, on one record of it.
use decision_center.Base.{true, [], ◌∷◌, ◌≡◌, ◌&&◌, not, contains}
use decision_center.Base.Dict.{string_key}
use decision_center.Coverage.{
  Coverage, CoverageEntry, CoverageStatus, summary, entry_of, project_sources, is_error,
  is_documented_skip,
}
use decision_center.Coverage.Laws.{summary_lists}

abbrev entry : CoverageStatus → CoverageEntry
entry s = record { enabled = true; attempted = true; status = s; evidence_count = 2; reason = "" }

-- Odoo failed after two items, the mailbox has no record.
abbrev recorded : Coverage
recorded = ("odoo", entry CoverageStatus.error) ∷ ("sharepoint", entry CoverageStatus.ok) ∷ []

summary_lists_example :
    (contains "odoo" (summary recorded).connector_errors ≡ (
      contains "odoo" project_sources
      && (entry_of recorded "odoo").enabled
      && is_error (entry_of recorded "odoo").status))
    × (contains "odoo" (summary recorded).not_attempted_sources ≡ (
        contains "odoo" project_sources
        && (entry_of recorded "odoo").enabled
        && (not (entry_of recorded "odoo").attempted
            && not (is_documented_skip (entry_of recorded "odoo").status))))
summary_lists_example = summary_lists "odoo" recorded
