-- ===== src/Policy.antt =====
-- apps/edr/graph/report_policy.py and the resolver of apps/edr/graph/intent.py: the report types,
-- the sections each renders and the quality-gate checks each runs.
pub mod Laws
use decision_center.Base.{
  Bool, true, false, Option, none, some, String, List, [], ◌∷◌, ◌++◌, if◌then◌else◌, is_empty_text,
}
use decision_center.Base.Dict.{Dict, lookup, string_key}

pub data Section : Type 0 where
  executive_summary management_question_answer financial_snapshot key_findings : Section
  root_causes delay_analysis contractual_implications recommended_actions : Section
  conflicts missing_data sources quality_gate : Section

-- The `CHK_` constants.
pub data Check : Type 0 where
  chk_claims chk_financials chk_sources chk_conflicts chk_executive_summary : Check
  chk_search_summary chk_project_identity chk_confidence chk_timeout_semantics : Check
  chk_management_question_answer chk_intent_correctness chk_irrelevant_sections : Check
  chk_raw_filename : Check

-- The patterns of intent.py as tests on the lowered query.
pub record Patterns : Type 0 where
  pub salary_payroll_re : String → Bool
  pub management_question_re : String → Bool
  pub financial_re : String → Bool
  pub risk_re : String → Bool
  pub delay_re : String → Bool
  pub document_search_re : String → Bool
  pub data_report_re : String → Bool

-- `classify_report_type`, on the query in lower case
unfoldable pub classify_report_type : Patterns → String → String
classify_report_type p q =
    if p.salary_payroll_re q
    then "salary_payroll"
    else if p.management_question_re q
    then "management_question"
    else if p.financial_re q
    then "financial"
    else if p.risk_re q
    then "risk"
    else if p.delay_re q
    then "delay"
    else if p.document_search_re q
    then "document_search"
    else if p.data_report_re q
    then "data_report"
    else "general_project_status"

-- `BASELINE_CHECKS`
abbrev pub baseline_checks : List Check
baseline_checks =
    chk_claims ∷ chk_financials ∷ chk_sources ∷ chk_conflicts ∷ chk_executive_summary
    ∷ chk_search_summary ∷ chk_project_identity ∷ chk_confidence ∷ chk_timeout_semantics
    ∷ chk_raw_filename ∷ []

abbrev pub full_sections : List Section
full_sections =
    executive_summary ∷ management_question_answer ∷ financial_snapshot ∷ key_findings ∷ root_causes
    ∷ delay_analysis ∷ contractual_implications ∷ recommended_actions ∷ conflicts ∷ missing_data
    ∷ sources ∷ quality_gate ∷ []

abbrev pub data_sections : List Section
data_sections =
    executive_summary ∷ key_findings ∷ recommended_actions ∷ conflicts ∷ missing_data ∷ sources
    ∷ quality_gate ∷ []

abbrev pub financial_sections : List Section
financial_sections =
    executive_summary ∷ financial_snapshot ∷ key_findings ∷ recommended_actions ∷ conflicts
    ∷ missing_data ∷ sources ∷ quality_gate ∷ []

abbrev pub risk_sections : List Section
risk_sections =
    executive_summary ∷ key_findings ∷ root_causes ∷ contractual_implications ∷ recommended_actions
    ∷ conflicts ∷ missing_data ∷ sources ∷ quality_gate ∷ []

abbrev pub delay_sections : List Section
delay_sections =
    executive_summary ∷ key_findings ∷ delay_analysis ∷ root_causes ∷ recommended_actions
    ∷ conflicts ∷ missing_data ∷ sources ∷ quality_gate ∷ []

abbrev pub document_sections : List Section
document_sections = executive_summary ∷ key_findings ∷ sources ∷ missing_data ∷ quality_gate ∷ []

-- `_PROJECT_SOURCES`
abbrev pub project_sources : List String
project_sources = "odoo" ∷ "sharepoint" ∷ "email" ∷ []

pub record ReportPolicy : Type 0 where
  pub report_type : String
  pub sections : List Section
  pub qg_checks : List Check
  pub sources_required : List String
  pub sources_optional : List String

abbrev pub extract_checks : List Check
extract_checks = baseline_checks ++ chk_intent_correctness ∷ chk_irrelevant_sections ∷ []

-- `DEFAULT_POLICY`, the last entry of `POLICY`
abbrev pub default_policy : ReportPolicy
default_policy = record {
  report_type = "general_project_status";
  sections = full_sections;
  qg_checks = baseline_checks;
  sources_required = [];
  sources_optional = project_sources;
}

-- `POLICY`
abbrev pub policy : Dict String ReportPolicy
policy =
    (
      "management_question",
      record {
        report_type = "management_question";
        sections = full_sections;
        qg_checks = baseline_checks ++ chk_management_question_answer ∷ [];
        sources_required = [];
        sources_optional = project_sources;
      },
    )
    ∷ (
      "salary_payroll",
      record {
        report_type = "salary_payroll";
        sections = data_sections;
        qg_checks = extract_checks;
        sources_required = [];
        sources_optional = project_sources;
      },
    )
    ∷ (
      "data_report",
      record {
        report_type = "data_report";
        sections = data_sections;
        qg_checks = extract_checks;
        sources_required = [];
        sources_optional = project_sources;
      },
    )
    ∷ (
      "financial",
      record {
        report_type = "financial";
        sections = financial_sections;
        qg_checks = baseline_checks;
        sources_required = "odoo" ∷ [];
        sources_optional = project_sources;
      },
    )
    ∷ (
      "risk",
      record {
        report_type = "risk";
        sections = risk_sections;
        qg_checks = baseline_checks;
        sources_required = [];
        sources_optional = project_sources;
      },
    )
    ∷ (
      "delay",
      record {
        report_type = "delay";
        sections = delay_sections;
        qg_checks = baseline_checks;
        sources_required = [];
        sources_optional = project_sources;
      },
    )
    ∷ (
      "document_search",
      record {
        report_type = "document_search";
        sections = document_sections;
        qg_checks = extract_checks;
        sources_required = "sharepoint" ∷ [];
        sources_optional = project_sources;
      },
    )
    ∷ ("general_project_status", default_policy)
    ∷ []

abbrev pub or_default : Option ReportPolicy → ReportPolicy
or_default none = default_policy
or_default (some p) = p

-- `policy_for`
unfoldable pub policy_for : Option String → ReportPolicy
policy_for none = default_policy
policy_for (some name) =
    if is_empty_text name then default_policy else or_default (lookup name policy)

abbrev pub same_check : Check → Check → Bool
same_check chk_claims chk_claims = true
same_check chk_financials chk_financials = true
same_check chk_sources chk_sources = true
same_check chk_conflicts chk_conflicts = true
same_check chk_executive_summary chk_executive_summary = true
same_check chk_search_summary chk_search_summary = true
same_check chk_project_identity chk_project_identity = true
same_check chk_confidence chk_confidence = true
same_check chk_timeout_semantics chk_timeout_semantics = true
same_check chk_management_question_answer chk_management_question_answer = true
same_check chk_intent_correctness chk_intent_correctness = true
same_check chk_irrelevant_sections chk_irrelevant_sections = true
same_check chk_raw_filename chk_raw_filename = true
same_check _ _ = false

unfoldable pub has_check : Check → List Check → Bool
has_check c [] = false
has_check c (d ∷ ds) = let rest = has_check c ds in if same_check d c then true else rest

-- `ReportPolicy.runs_check`
unfoldable pub runs_check : ReportPolicy → Check → Bool
unfolding has_check
runs_check p c = has_check c p.qg_checks
