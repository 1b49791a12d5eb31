-- ===== src/Gate/Memo.antt =====
-- `_check_management_question_answer` of the quality gate: the parts of a decision memo.
use decision_center.Base.{
  Bool, true, false, ◌||◌, not, Option, none, some, String, List, [], ◌∷◌, ◌++◌, ltb, if◌then◌else◌,
  is_empty_text, length,
}
use decision_center.Base.Fallible.{Py, ok, ◌>>=◌}
use decision_center.Json.{
  Value, Fields, text, get, elements, truthy?, as_list, as_dict, dict_or_empty, equals_text,
}
use decision_center.Gate.{
  unsupported, needs_review, part, named, ClaimCheck, TextOps, flag, flag_if,
}
use decision_center.Gate.Content.{strip_or_empty}

-- `isinstance(why, list) and len(why) >= 3`
abbrev pub has_three : Option Value → Bool
has_three o = elim (as_list o) [ none ↦ false | some vs ↦ ltb 2 (length (elements vs)) ]

abbrev pub is_confidence : Option Value → Bool
is_confidence v = equals_text "high" v || equals_text "medium" v || equals_text "low" v

-- `report.get("report_type") or classify_report_type(query)`
unfoldable pub effective_type : String → Fields → Option Value
effective_type classified report =
    if truthy? (get "report_type" report)
    then get "report_type" report
    else some (text (classified))

module _ (ops : TextOps) where
  -- `(d.get(k) or "").strip()`, whether anything is left
  unfoldable pub says : Fields → String → Py Bool
  says fs key = do s ← strip_or_empty ops (get key fs); ok (not (is_empty_text s))

  -- `all(...)` and `and` stop at the first part that says nothing
  unfoldable pub says_all : Fields → List String → Py Bool
  says_all fs [] = ok true
  says_all fs (key ∷ rest) = do
    first ← says fs key
    elim first [ true ↦ says_all fs rest | false ↦ ok false ]

  unfoldable pub has_parts : Option Fields → List String → Py Bool
  has_parts none names = ok false
  has_parts (some fs) names = says_all fs names

  unfoldable pub check_memo : Fields → Py (List ClaimCheck)
  check_memo mqa = do
    answered ← says mqa "executive_answer"
    impact ←
        has_parts (dict_or_empty (get "business_impact" mqa))
          ("schedule_impact" ∷ "cost_commercial_impact" ∷ "operational_client_impact" ∷ [])
    decided ← says mqa "decision_required"
    action ←
        has_parts (dict_or_empty (get "recommended_action" mqa))
          ("specific_action" ∷ "owner_role" ∷ [])
    risks ← says mqa "risks_if_no_action"
    ok (
        flag_if (not answered) (part "management_question_answer" "executive_answer") unsupported
        ++ (flag_if (not (has_three (get "why_biggest_problem" mqa)))
              (part "management_question_answer" "why_biggest_problem") needs_review
            ++ (flag_if (not impact) (part "management_question_answer" "business_impact")
                  needs_review
                ++ (flag_if (not decided) (part "management_question_answer" "decision_required")
                      needs_review
                    ++ (flag_if (not action)
                          (part "management_question_answer" "recommended_action") needs_review
                        ++ (flag_if (not risks)
                              (part "management_question_answer" "risks_if_no_action") needs_review
                            ++ flag_if (not (is_confidence (get "confidence" mqa)))
                                (part "management_question_answer" "confidence") needs_review))))))

  -- `_check_management_question_answer`
  unfoldable pub check_management_question_answer : String → Fields → Py (List ClaimCheck)
  check_management_question_answer classified report =
      if equals_text "management_question" (effective_type classified report)
      then elim (as_dict (get "management_question_answer" report)) [
        | none ↦ ok (flag (named "management_question_answer") unsupported ∷ [])
        | some mqa ↦ check_memo mqa
      ]
      else ok []
