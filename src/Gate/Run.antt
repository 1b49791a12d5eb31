-- ===== src/Gate/Run.antt =====
-- `_compute_analytical_completeness` and `run` of the quality gate: the checks that the report's
-- policy asks for, the verdict, and the coverage of the connectors.
use decision_center.Base.{
  Bool, true, false, ◌&&◌, Option, none, some, String, List, [], ◌∷◌, ◌++◌, ℕ, if◌then◌else◌,
  is_empty, filter_by, length,
}
use decision_center.Base.Fallible.{Py, ok, raise, type_error, ◌>>=◌}
use decision_center.Coverage.{Coverage, Completeness, Summary, summary}
use decision_center.Json.{Value, Fields, text, list, dict, get, dict_or_empty}
use decision_center.Policy.{
  ReportPolicy, policy_for, runs_check, Check, chk_claims, chk_financials, chk_sources,
  chk_conflicts, chk_executive_summary, chk_search_summary, chk_raw_filename,
  chk_management_question_answer, chk_project_identity, chk_intent_correctness,
  chk_irrelevant_sections, chk_confidence, chk_timeout_semantics,
}
use decision_center.Gate.{
  unsupported, needs_review, ClaimId, named, ClaimCheck, TextOps, flag, collect,
}
use decision_center.Gate.Claims.{
  collect_claims, check_claims, check_financials, check_sources, check_conflicts,
  check_executive_summary,
}
use decision_center.Gate.Content.{
  check_project_identity, check_raw_filename_findings, check_intent_correctness,
  check_search_summary_patterns, check_irrelevant_sections, check_confidence,
  check_timeout_semantics, is_filled, is_available,
}
use decision_center.Gate.Memo.{effective_type, check_management_question_answer}

-- The verdict of the gate and what the node writes to the outputs.
pub data GateVerdict : Type 0 where
  passed failed needs_review_verdict : GateVerdict

pub record GateResult : Type 0 where
  pub verdict : GateVerdict
  pub checks : List ClaimCheck
  pub completeness : Completeness
  pub unsupported_count : ℕ
  pub needs_review_count : ℕ

abbrev pub is_unsupported : ClaimCheck → Bool
is_unsupported c = elim c.verdict [ unsupported ↦ true | _ ↦ false ]

abbrev pub is_needs_review : ClaimCheck → Bool
is_needs_review c = elim c.verdict [ needs_review ↦ true | _ ↦ false ]

-- `check_runners` in their order.
abbrev pub check_runners : List Check
check_runners =
    chk_claims ∷ chk_financials ∷ chk_sources ∷ chk_conflicts ∷ chk_executive_summary
    ∷ chk_search_summary ∷ chk_raw_filename ∷ chk_management_question_answer ∷ chk_project_identity
    ∷ chk_intent_correctness ∷ chk_irrelevant_sections ∷ chk_confidence ∷ chk_timeout_semantics ∷ []

-- `policy_for` on a JSON value: a list or a dict is no key of `POLICY`
unfoldable pub policy_of_value : Option Value → Py ReportPolicy
policy_of_value (some (text name)) = ok (policy_for (some name))
policy_of_value (some (list vs)) = raise type_error
policy_of_value (some (dict fs)) = raise type_error
policy_of_value _ = ok (policy_for none)

-- What the node reads of the state: the report, the ids of the evidence, the type of the query and
-- the coverage of the connectors.
pub record GateInput : Type 0 where
  pub report : Fields
  pub evidence : List String
  pub classified : String
  pub coverage : Coverage

-- The verdict of the checks alone.
unfoldable pub verdict_of : List ClaimCheck → GateVerdict
verdict_of checks =
    if is_empty (filter_by is_unsupported checks)
    then if is_empty (filter_by is_needs_review checks) then passed else needs_review_verdict
    else failed

unfoldable pub blocking_sources : Summary → List String
blocking_sources cov = cov.connector_errors ++ cov.not_attempted_sources

abbrev pub downgrade : GateVerdict → GateVerdict
downgrade passed = needs_review_verdict
downgrade v = v

module _ (ops : TextOps) (i : GateInput) where
  unfoldable pub run_check : Check → Py (List ClaimCheck)
  run_check chk_claims = check_claims i.evidence i.report
  run_check chk_financials = check_financials i.evidence i.report
  run_check chk_sources = ok (check_sources i.report)
  run_check chk_conflicts = ok (check_conflicts i.report)
  run_check chk_executive_summary = ok (check_executive_summary i.report i.evidence)
  run_check chk_search_summary = check_search_summary_patterns ops i.report
  run_check chk_raw_filename = check_raw_filename_findings ops i.report
  run_check chk_management_question_answer =
      check_management_question_answer ops i.classified i.report
  run_check chk_project_identity = ok (check_project_identity ops i.report)
  run_check chk_intent_correctness = check_intent_correctness ops i.classified i.report
  run_check chk_irrelevant_sections = ok (check_irrelevant_sections i.classified i.report)
  run_check chk_confidence = check_confidence i.report i.coverage
  run_check chk_timeout_semantics = check_timeout_semantics ops i.report i.coverage

  unfoldable pub run_if : ReportPolicy → Check → Py (List ClaimCheck)
  run_if p c = if runs_check p c then run_check c else ok []

  -- No claims and no evidence: the gate fails, with a check that says so.
  unfoldable pub is_blank : List (ClaimId × Fields) → Bool
  is_blank claims = is_empty claims && is_empty i.evidence

  unfoldable pub conclude : List ClaimCheck → List (ClaimId × Fields) → GateResult
  conclude checks claims =
      let cov = summary i.coverage in
      let checked = if is_blank claims then failed else verdict_of checks in
      let global = if is_blank claims then flag (named "global") unsupported ∷ [] else [] in
      let satisfied = is_empty (blocking_sources cov) in
      record {
        verdict = if satisfied then checked else downgrade checked;
        checks =
            checks
            ++ (global
                ++ (if satisfied then [] else flag (named "connector_coverage") needs_review ∷ []));
        completeness = cov.completeness;
        unsupported_count = length (filter_by is_unsupported checks);
        needs_review_count = length (filter_by is_needs_review checks);
      }

  -- `run`
  unfoldable pub run_gate : Py GateResult
  run_gate = do
    p ← policy_of_value (effective_type i.classified i.report)
    checks ← collect (run_if p) check_runners
    claims ← collect_claims i.report
    ok (conclude checks claims)

-- Whether the snapshot marks a figure as available.
abbrev pub has_figure : String → Fields → Bool
has_figure name report = elim (dict_or_empty (get "financial_snapshot" report)) [
  | none ↦ false
  | some fs ↦ is_available fs name
]

-- The overall of `_compute_analytical_completeness`
pub data Analytical : Type 0 where
  incomplete partly_complete complete : Analytical

unfoldable pub analytical_completeness : Fields → Analytical
analytical_completeness report =
    if is_filled (get "executive_summary" report) && has_figure "budget" report
    then if is_filled (get "key_findings" report)
        && (is_filled (get "recommended_actions" report) && has_figure "actual_cost" report)
      then complete
      else partly_complete
    else incomplete
