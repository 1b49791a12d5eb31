-- ===== src/Gate/Content.antt =====
-- The checks of the quality gate on identity, wording, report type and confidence.
use decision_center.Base.{
  Bool, true, false, ◌&&◌, ◌||◌, not, Option, none, some, String, List, [], ◌∷◌, ◌++◌, ℕ, suc,
  if◌then◌else◌, is_empty, is_empty_text, any_of, str_eq, map,
}
use decision_center.Base.Fallible.{Py, ok, raise, type_error, ◌>>=◌}
use decision_center.Coverage.{Coverage, Summary, summary, is_timeout}
use decision_center.Json.{
  Value, Fields, list, cons, dict, text, get, elements, iterate?, text_list, truthy, truthy?,
  as_list, as_dict, dict_or_empty, equals_text,
}
use decision_center.Gate.{
  unsupported, needs_review, item, raw_filename, part, named, ClaimCheck, TextOps, flag, flag_if,
  collect, claim_sections, figures,
}
use decision_center.Gate.Claims.{collect_claims}

-- `report.get("report_type", classify_report_type(query))`, as the name that it is compared with
unfoldable pub declared_type : String → Fields → Option Value
declared_type classified report = elim (get "report_type" report) [
  | none ↦ some (text (classified))
  | some v ↦ some v
]

-- `report_type in (...)` for the three extract types
abbrev pub is_extract : Option Value → Bool
is_extract t =
    equals_text "salary_payroll" t || equals_text "data_report" t || equals_text "document_search" t

module _ (ops : TextOps) where
  -- `v.strip()` for `v = a or ""`: a truthy value that is no text has no `strip`
  unfoldable pub strip_or_empty : Option Value → Py String
  strip_or_empty none = ok (ops.strip "")
  strip_or_empty (some (text s)) = ok (ops.strip s)
  strip_or_empty (some v) = if truthy v then raise type_error else ok (ops.strip "")

  -- `str(v or "").strip()`
  unfoldable pub shown_text : Option Value → String
  shown_text none = ops.strip ""
  shown_text (some v) = if truthy v then ops.strip (ops.str_of v) else ops.strip ""

  abbrev pub is_known_confidence : Option Value → Bool
  is_known_confidence v = equals_text "verified" v || equals_text "partial" v

  unfoldable pub check_name : String → Option Value → List ClaimCheck
  check_name name confidence =
      if is_empty_text name || str_eq (ops.lower name) "not verified"
      then flag (part "project_identity" "project_name") unsupported ∷ []
      else flag_if (not (is_known_confidence confidence))
          (part "project_identity" "identity_confidence") needs_review

  unfoldable pub check_identity : Option Fields → List ClaimCheck
  check_identity none = flag (named "project_identity") unsupported ∷ []
  check_identity (some pid) =
      check_name (shown_text (get "project_name" pid)) (get "identity_confidence" pid)
      ++ flag_if (is_empty_text (shown_text (get "project_code" pid)))
          (part "project_identity" "project_code") needs_review

  -- `_check_project_identity`
  unfoldable pub check_project_identity : Fields → List ClaimCheck
  check_project_identity report = check_identity (as_dict (get "project_identity" report))

  abbrev pub leaks_filename : String → Bool
  leaks_filename s = not (is_empty_text s) && (ops.filename_re s || ops.filename_embedded_re s)

  -- `eids if isinstance(eids, list) else []`
  unfoldable pub listed_ids : Option Value → Py (List String)
  listed_ids (some (list vs)) = text_list (list vs)
  listed_ids _ = ok []

  unfoldable pub report_wording : String → ℕ → Fields → Bool → Py (List ClaimCheck)
  report_wording section i fs false = ok []
  report_wording section i fs true = do
    eids ← listed_ids (get "evidence_ids" fs)
    ok (
        record { claim_id = raw_filename section i; verdict = unsupported; evidence_ids = eids }
        ∷ [])

  unfoldable pub check_wording : String → ℕ → Fields → Py (List ClaimCheck)
  check_wording section i fs = do
    s ← strip_or_empty (if truthy? (get "text" fs) then get "text" fs else get "claim" fs)
    report_wording section i fs (leaks_filename s)

  unfoldable pub check_wordings : String → ℕ → List Value → Py (List ClaimCheck)
  check_wordings section i [] = ok []
  check_wordings section i (dict fs ∷ vs) = do
    first ← check_wording section i fs
    rest ← check_wordings section (suc i) vs
    ok (first ++ rest)
  check_wordings section i (_ ∷ vs) = check_wordings section (suc i) vs

  unfoldable pub check_section_wording : Fields → String → Py (List ClaimCheck)
  check_section_wording report section = elim (as_list (get section report)) [
    | none ↦ ok []
    | some vs ↦ check_wordings section 0 (elements vs)
  ]

  -- `_check_raw_filename_findings`
  unfoldable pub check_raw_filename_findings : Fields → Py (List ClaimCheck)
  check_raw_filename_findings report = collect (check_section_wording report) claim_sections

  -- `has_mqa_answer`
  unfoldable pub has_answer : Fields → Py Bool
  has_answer report = elim (dict_or_empty (get "management_question_answer" report)) [
    | none ↦ ok false
    | some mqa ↦ do
      answer ← strip_or_empty (get "executive_answer" mqa)
      ok (not (is_empty_text answer))
  ]

  -- `item.get("claim", "")`, which the join wants to be a text
  unfoldable pub claim_texts : List Value → Py (List String)
  claim_texts [] = ok []
  claim_texts (dict fs ∷ vs) = do
    rest ← claim_texts vs
    elim (get "claim" fs) [
      | none ↦ ok ("" ∷ rest)
      | some (text s) ↦ ok (s ∷ rest)
      | some _ ↦ raise type_error
    ]
  claim_texts (_ ∷ vs) = claim_texts vs

  unfoldable pub check_payroll_framing : Fields → Py (List ClaimCheck)
  check_payroll_framing report = do
    vs ← iterate? (get "executive_summary" report)
    claims ← claim_texts vs
    let said = ops.lower (ops.join claims)
    ok (
        flag_if
          (ops.occurs_in "biggest problem" said || ops.occurs_in "management should decide" said)
          (part "intent" "salary_payroll_framing") needs_review)

  -- `_check_intent_correctness`
  unfoldable pub check_intent_correctness : String → Fields → Py (List ClaimCheck)
  check_intent_correctness classified report = do
    answered ← has_answer report
    let declared = declared_type classified report
    let framed =
        flag_if (is_extract declared && answered) (part "intent" "management_question_answer")
          needs_review
    payroll ←
        (if equals_text "salary_payroll" declared then check_payroll_framing report else ok [])
    ok (framed ++ payroll)

  -- The claim text of a summary item that the pattern is searched in.
  unfoldable pub check_summary_item : ℕ → Fields → Py (List ClaimCheck)
  check_summary_item i fs = elim (get "claim" fs) [
    | none ↦ ok []
    | some (text s) ↦
        if ops.search_summary_re s
        then (do
          eids ← elim (get "evidence_ids" fs) [ none ↦ ok [] | some v ↦ text_list v ]
          ok (
              record {
                claim_id = item "executive_summary" i;
                verdict = needs_review;
                evidence_ids = eids;
              }
              ∷ []))
        else ok []
    | some _ ↦ raise type_error
  ]

  unfoldable pub check_summary_items : ℕ → List Value → Py (List ClaimCheck)
  check_summary_items i [] = ok []
  check_summary_items i (dict fs ∷ vs) = do
    first ← check_summary_item i fs
    rest ← check_summary_items (suc i) vs
    ok (first ++ rest)
  check_summary_items i (_ ∷ vs) = check_summary_items (suc i) vs

  -- `_check_search_summary_patterns`; a pattern that matches the empty text is not meant
  unfoldable pub check_search_summary_patterns : Fields → Py (List ClaimCheck)
  check_search_summary_patterns report = elim (as_list (get "executive_summary" report)) [
    | none ↦ ok []
    | some vs ↦ check_summary_items 0 (elements vs)
  ]

  -- `_check_timeout_semantics`
  abbrev pub says_no_data : String → Bool
  says_no_data said =
      ops.occurs_in "no data" said
      || ops.occurs_in "returned empty" said
      || ops.occurs_in "empty result" said

-- A section that is a list with an item in it.
abbrev pub is_filled : Option Value → Bool
is_filled (some (list (cons v vs))) = true
is_filled _ = false

abbrev pub is_available : Fields → String → Bool
is_available fs name = elim (as_dict (get name fs)) [
  | none ↦ false
  | some node ↦ equals_text "available" (get "status" node)
]

abbrev pub shows_figures : Fields → Bool
shows_figures report = elim (dict_or_empty (get "financial_snapshot" report)) [
  | none ↦ false
  | some fs ↦ any_of (is_available fs) figures
]

-- `_check_irrelevant_sections`
unfoldable pub check_irrelevant_sections : String → Fields → List ClaimCheck
check_irrelevant_sections classified report =
    let declared = declared_type classified report in
    flag_if
      (is_extract declared
        && (any_of (λ s. is_filled (get s report))
              ("root_causes" ∷ "delay_analysis" ∷ "contractual_implications" ∷ [])
            || (equals_text "document_search" declared && shows_figures report)))
      (part "intent" "irrelevant_sections") needs_review

-- `has_timeouts`: any enabled source, project source or not
abbrev pub has_timeouts : Summary → Bool
has_timeouts cov = any_of (λ e. is_timeout e.1.status && e.1.enabled) cov.sources

-- `_check_confidence_against_evidence`
unfoldable pub check_confidence : Fields → Coverage → Py (List ClaimCheck)
check_confidence report recorded = do
  claims ← collect_claims report
  let cov = summary recorded
  ok (
      flag_if
        (any_of (λ c. equals_text "high" (get "confidence" c.1)) claims
          && (has_timeouts cov || not (is_empty cov.connector_errors)))
        (part "confidence" "cap_high_confidence") needs_review)

-- `_check_timeout_semantics`
unfoldable pub check_timeout_semantics : TextOps → Fields → Coverage → Py (List ClaimCheck)
check_timeout_semantics ops report recorded =
    if has_timeouts (summary recorded)
    then (do
      missing ← iterate? (get "missing_data" report)
      let said = ops.lower (ops.join (map ops.str_of missing))
      ok (flag_if (says_no_data ops said) (part "semantics" "timeout_as_no_data") needs_review))
    else ok []
