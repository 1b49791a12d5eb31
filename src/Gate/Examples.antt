-- ===== src/Gate/Examples.antt =====
-- The theorems on the quality gate, on one report that passes it.
use decision_center.Base.{
  true, false, some, String, List, [], ◌∷◌, ◌≡◌, refl, All, str_eq, is_empty_text, ◌||◌, ltb,
}
use decision_center.Base.Fallible.{ok}
use decision_center.Coverage.{Coverage, CoverageEntry, full, summary}
use decision_center.Coverage
use decision_center.Json.{
  Value, Fields, text, list, dict, nil, cons, field, end, get, as_dict, in_set,
}
use decision_center.Gate.{supported, ClaimId, item, TextOps}
use decision_center.Gate.Claims.{collect_claims}
use decision_center.Gate.Run.{passed, GateResult, GateInput, run_gate, is_blank, blocking_sources}
use decision_center.Gate.Content.{shown_text, is_known_confidence}
use decision_center.Gate.Grounding.{Grounded}
use decision_center.Gate.Passed.{passed-Grounded}
use decision_center.Gate.Promises.{
  passed-Connectors, passed-figures, passed-identity, run_gate-failed, is_failed,
}
use decision_center.Gate.{collect}
use decision_center.Gate.Claims.{
  dict_items, section_claims, invalid_ids, check_cited, check_evidence, check_claim, check_claims,
  check_figure_id, check_node, check_figure, check_variance_ids, check_variance, check_snapshot,
  check_financials, check_sources, check_conflicts, check_executive_summary,
}
use decision_center.Gate.Content.{
  declared_type, strip_or_empty, check_name, check_identity, check_project_identity, listed_ids,
  report_wording, check_wording, check_wordings, check_section_wording, check_raw_filename_findings,
  has_answer, claim_texts, check_payroll_framing, check_intent_correctness, check_summary_item,
  check_summary_items, check_search_summary_patterns, check_irrelevant_sections, check_confidence,
  check_timeout_semantics,
}
use decision_center.Gate.Memo.{
  effective_type, says, says_all, has_parts, check_memo, check_management_question_answer,
}
use decision_center.Gate.Run.{policy_of_value, verdict_of, run_check, run_if, conclude}
use decision_center.Json.{elements, keys, letters, iterate, iterate?, text_items, text_list}
use decision_center.Gate.Dispatch.{OwnPolicy, classify_report_type-policy_for}
use decision_center.Policy.{Patterns, classify_report_type, policy_for, has_check, runs_check}
use decision_center.Coverage.{
  set_default, with_defaults, entry_of, completeness_of, enabled_sources, errors_among,
  not_attempted_among,
}
use decision_center.Base.{filter_by, all_of, any_of, contains}
use decision_center.Base.Dict.{lookup, insert}

abbrev shown : Value → String
shown (text s) = s
shown _ = "value"

abbrev first_text : List String → String
first_text [] = ""
first_text (s ∷ ss) = s

abbrev plain_ops : TextOps
plain_ops = record {
  str_of = shown;
  strip = λ s. s;
  lower = λ s. s;
  occurs_in = str_eq;
  join = first_text;
  filename_re = λ s. str_eq s "minutes.pdf";
  filename_embedded_re = λ s. false;
  search_summary_re = λ s. str_eq s "search results";
}

abbrev cited_claim : Fields
cited_claim =
    field "claim" (text "Concrete is late.")
      (field "evidence_ids" (list (cons (text "ev-1") nil)) end)

abbrev identity : Fields
identity =
    field "project_name" (text "North Tower")
      (field "identity_confidence" (text "verified") (field "project_code" (text "PRJ-001") end))

abbrev budget : Fields
budget = field "status" (text "available") (field "evidence_id" (text "ev-1") end)

abbrev good_report : Fields
good_report = field "report_type" (text "financial") (
    field "project_identity" (dict identity) (
      field "executive_summary" (list (cons (dict cited_claim) nil))
        (field "financial_snapshot" (dict (field "budget" (dict budget) end)) end)))

abbrev good_entry : CoverageEntry
good_entry = record {
  enabled = true;
  attempted = true;
  status = Coverage.ok;
  evidence_count = 1;
  reason = "";
}

abbrev good_input : GateInput
good_input = record {
  report = good_report;
  evidence = "ev-1" ∷ [];
  classified = "financial";
  coverage = ("odoo", good_entry) ∷ ("sharepoint", good_entry) ∷ ("email", good_entry) ∷ [];
}

abbrev good_result : GateResult
good_result = record {
  verdict = passed;
  checks =
      record {
        claim_id = item "executive_summary" 0;
        verdict = supported;
        evidence_ids = "ev-1" ∷ [];
      }
      ∷ [];
  completeness = full;
  unsupported_count = 0;
  needs_review_count = 0;
}

good_run : run_gate plain_ops good_input ≡ ok good_result
unfolding collect dict_items section_claims collect_claims invalid_ids check_cited check_evidence
    check_claim check_claims check_figure_id check_node check_figure check_variance_ids
    check_variance check_snapshot check_financials check_sources check_conflicts
    check_executive_summary declared_type strip_or_empty shown_text check_name check_identity
    check_project_identity listed_ids report_wording check_wording check_wordings
    check_section_wording check_raw_filename_findings has_answer claim_texts check_payroll_framing
    check_intent_correctness check_summary_item check_summary_items check_search_summary_patterns
    check_irrelevant_sections check_confidence check_timeout_semantics effective_type says says_all
    has_parts check_memo check_management_question_answer policy_of_value verdict_of
    blocking_sources run_check run_if is_blank conclude run_gate get elements keys letters iterate
    iterate? in_set text_items text_list policy_for has_check runs_check set_default with_defaults
    entry_of completeness_of enabled_sources errors_among not_attempted_among summary filter_by
    all_of any_of contains lookup insert
good_run = refl

abbrev good_claims : List (ClaimId × Fields)
good_claims = (item "executive_summary" 0, cited_claim) ∷ []

good_collected : collect_claims good_report ≡ ok good_claims
unfolding collect_claims collect section_claims iterate? iterate elements get dict_items
good_collected = refl

passed-Grounded_example : All (λ c. Grounded ("ev-1" ∷ []) c.1) good_claims
passed-Grounded_example =
    passed-Grounded plain_ops good_input good_result good_claims good_run refl good_collected

passed-Connectors_example : blocking_sources (summary good_input.coverage) ≡ []
passed-Connectors_example = passed-Connectors plain_ops good_input good_result good_run refl

passed-figures_example :
    (eid : Value) × (get "evidence_id" budget ≡ some eid) × (in_set ("ev-1" ∷ []) eid ≡ ok true)
unfolding get contains
passed-figures_example =
    passed-figures plain_ops good_input good_result (field "budget" (dict budget) end) budget
      "budget" good_run refl refl refl refl refl

passed-identity_example :
    (pid : Fields) × (as_dict (get "project_identity" good_report) ≡ some pid)
    × (is_empty_text (shown_text plain_ops (get "project_name" pid)) ≡ false)
    × (is_known_confidence plain_ops (get "identity_confidence" pid) ≡ true)
    × (is_empty_text (shown_text plain_ops (get "project_code" pid)) ≡ false)
passed-identity_example = passed-identity plain_ops good_input good_result good_run refl

run_gate-failed_example :
    is_failed good_result.verdict
    ≡ (is_blank plain_ops good_input good_claims || ltb 0 good_result.unsupported_count)
run_gate-failed_example =
    run_gate-failed plain_ops good_input good_result good_claims good_run good_collected

abbrev delay_words : Patterns
delay_words = record {
  salary_payroll_re = λ q. false;
  management_question_re = λ q. false;
  financial_re = λ q. false;
  risk_re = λ q. false;
  delay_re = λ q. str_eq q "why is the tower late";
  document_search_re = λ q. false;
  data_report_re = λ q. true;
}

classify_report_type-policy_for_example :
    OwnPolicy (classify_report_type delay_words "why is the tower late")
classify_report_type-policy_for_example =
    classify_report_type-policy_for delay_words "why is the tower late"
