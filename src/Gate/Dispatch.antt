-- ===== src/Gate/Dispatch.antt =====
-- The classifier of the queries, the registry of the policies and the types that the checks of the
-- gate look for.
use decision_center.Base.{Bool, true, false, all_of, some, String, ◌≡◌, refl, str_eq, if◌then◌else◌}
use decision_center.Base.Dict.{lookup}
use decision_center.Json.{text}
use decision_center.Policy.{
  chk_management_question_answer, chk_intent_correctness, chk_irrelevant_sections, baseline_checks,
  has_check, runs_check, policy_for, Patterns, classify_report_type,
}
use decision_center.Gate.Content.{is_extract}

-- The policy found for a type is the type's own, it runs the baseline checks, and it runs the three
-- checks of particular types exactly for the types that these look for.
abbrev pub OwnPolicy : String → Type 0
OwnPolicy name =
    let p = policy_for (some name) in
    (p.report_type ≡ name)
    × (all_of (runs_check p) baseline_checks ≡ true)
    × (runs_check p chk_intent_correctness ≡ is_extract (some (text name)))
    × (runs_check p chk_irrelevant_sections ≡ is_extract (some (text name)))
    × (runs_check p chk_management_question_answer ≡ str_eq "management_question" name)

first_match :
    (P : String → Type 0) (test : Bool) (name other : String)
    → P name
    → P other
    → P (if test then name else other)
first_match P true name other h k = h
first_match P false name other h k = k

-- Whatever the query and whatever the patterns find in it: the policy that the gate looks up for
-- the type of the query is that type's own entry, it runs every baseline check, and it runs the
-- three checks of particular types exactly for the types that these checks themselves look for.
pub classify_report_type-policy_for :
    (p : Patterns) (query : String) → OwnPolicy (classify_report_type p query)
unfolding classify_report_type policy_for lookup runs_check has_check all_of
classify_report_type-policy_for p query =
    first_match OwnPolicy _ "salary_payroll" _ (refl, refl, refl, refl, refl)
      (first_match OwnPolicy _ "management_question" _ (refl, refl, refl, refl, refl)
        (first_match OwnPolicy _ "financial" _ (refl, refl, refl, refl, refl)
          (first_match OwnPolicy _ "risk" _ (refl, refl, refl, refl, refl)
            (first_match OwnPolicy _ "delay" _ (refl, refl, refl, refl, refl)
              (first_match OwnPolicy _ "document_search" _ (refl, refl, refl, refl, refl)
                (first_match OwnPolicy _ "data_report" "general_project_status"
                  (refl, refl, refl, refl, refl) (refl, refl, refl, refl, refl)))))))
