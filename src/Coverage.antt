-- ===== src/Coverage.antt =====
-- apps/edr/graph/coverage.py: the outcome of each connector and the summary of them.
pub mod Laws
mod Examples
use decision_center.Base.{
  Bool, true, false, ◌&&◌, not, Option, none, some, String, List, [], ◌∷◌, ℕ, ltb, ◌==◌, str_eq,
  if◌then◌else◌, filter_by, all_of, is_empty, map,
}
use decision_center.Base.Dict.{string_key, Dict, lookup, insert}

-- The statuses that the retrieval nodes record; `timeout` is one of them.
pub data CoverageStatus : Type 0 where
  ok zero_no_match error blocked rbac_denied not_enabled timeout : CoverageStatus

pub record CoverageEntry : Type 0 where
  pub enabled : Bool
  pub attempted : Bool
  pub status : CoverageStatus
  pub evidence_count : ℕ
  pub reason : String

abbrev pub Coverage : Type 0
Coverage = Dict String CoverageEntry

-- `PROJECT_SOURCES`
abbrev pub project_sources : List String
project_sources = "odoo" ∷ "sharepoint" ∷ "email" ∷ []

-- `record`, on `state.outputs["source_coverage"]`
unfoldable pub record_coverage : String → CoverageEntry → Coverage → Coverage
record_coverage source entry cov = insert source entry cov

-- The entry that `setdefault` writes for a source that nothing recorded.
abbrev pub no_record : CoverageEntry
no_record = record {
  enabled = false;
  attempted = false;
  status = not_enabled;
  evidence_count = 0;
  reason = "Source produced no coverage record.";
}

abbrev pub or_no_record : Option CoverageEntry → CoverageEntry
or_no_record none = no_record
or_no_record (some entry) = entry

-- cov.setdefault(src, no_record)
unfoldable pub set_default : String → Coverage → Coverage
set_default source cov = elim (lookup source cov) [
  | none ↦ insert source no_record cov
  | some entry ↦ cov
]

unfoldable pub with_defaults : List String → Coverage → Coverage
with_defaults [] cov = cov
with_defaults (s ∷ ss) cov = with_defaults ss (set_default s cov)

-- cov[s], once every project source has its entry
unfoldable pub entry_of : Coverage → String → CoverageEntry
entry_of cov s = or_no_record (lookup s cov)

abbrev pub is_error : CoverageStatus → Bool
is_error error = true
is_error _ = false

abbrev pub is_timeout : CoverageStatus → Bool
is_timeout timeout = true
is_timeout _ = false

-- `_documented_skips`
abbrev pub is_documented_skip : CoverageStatus → Bool
is_documented_skip blocked = true
is_documented_skip rbac_denied = true
is_documented_skip _ = false

pub data Completeness : Type 0 where
  full partial none_enabled : Completeness

pub record Summary : Type 0 where
  pub sources : Coverage
  pub completeness : Completeness
  pub all_enabled_attempted : Bool
  pub connector_errors : List String
  pub zero_evidence_sources : List String
  pub not_attempted_sources : List String

unfoldable pub completeness_of : Coverage → List String → Completeness
completeness_of cov [] = none_enabled
completeness_of cov (s ∷ ss) =
    if all_of (λ x. ltb 0 (entry_of cov x).evidence_count) (s ∷ ss) then full else partial

-- The three lists of the summary, over the sources that are enabled.
unfoldable pub enabled_sources : Coverage → List String
enabled_sources cov = filter_by (λ s. (entry_of cov s).enabled) project_sources

unfoldable pub errors_among : Coverage → List String → List String
errors_among cov = filter_by (λ s. is_error (entry_of cov s).status)

unfoldable pub not_attempted_among : Coverage → List String → List String
not_attempted_among cov =
    filter_by
      (λ s. not (entry_of cov s).attempted && not (is_documented_skip (entry_of cov s).status))

-- `summary`
unfoldable pub summary : Coverage → Summary
summary recorded =
    let cov = with_defaults project_sources recorded in
    let enabled = enabled_sources cov in
    record {
      sources = cov;
      completeness = completeness_of cov enabled;
      all_enabled_attempted = is_empty (not_attempted_among cov enabled);
      connector_errors = errors_among cov enabled;
      zero_evidence_sources = filter_by (λ s. (entry_of cov s).evidence_count == 0) enabled;
      not_attempted_sources = not_attempted_among cov enabled;
    }

-- A row of the report's connector table.
pub record CoverageRow : Type 0 where
  pub source : String
  pub entry : CoverageEntry

-- `report_section`
unfoldable pub report_section : Coverage → List CoverageRow
report_section recorded =
    map (λ s. record { source = s; entry = entry_of (summary recorded).sources s }) project_sources
