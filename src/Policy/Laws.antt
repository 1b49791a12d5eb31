-- ===== src/Policy/Laws.antt =====
-- What the registry gives for every report type, known or not.
use decision_center.Base.{
  true, Option, none, some, String, List, [], ◌∷◌, ◌++◌, ◌≡◌, refl, All, Bool-cases, inl, inr,
  is_empty_text, str_eq,
}
use decision_center.Base.Dict.{Dict, lookup, string_key}
use decision_center.Policy.{
  Check, chk_management_question_answer, chk_intent_correctness, chk_irrelevant_sections,
  baseline_checks, ReportPolicy, default_policy, policy, or_default, policy_for, same_check,
  has_check, runs_check,
}

has_check-append :
    (c : Check) (xs ys : List Check) → has_check c xs ≡ true → has_check c (xs ++ ys) ≡ true
unfolding has_check
has_check-append c [] ys h = cc
has_check-append c (x ∷ xs) ys h = elim (Bool-cases (same_check x c)) [
  | inl e ↦ rw e refl
  | inr e ↦ rw e (has_check-append c xs ys (rw e at h))
]

-- The policy runs every baseline check.
abbrev pub RunsBaseline : ReportPolicy → Type 0
RunsBaseline p = (c : Check) → has_check c baseline_checks ≡ true → runs_check p c ≡ true

or_default-RunsBaseline :
    (name : String) (entries : Dict String ReportPolicy)
    → All (λ e. RunsBaseline e.1) entries
    → RunsBaseline default_policy
    → RunsBaseline (or_default (lookup name entries))
unfolding lookup
or_default-RunsBaseline name [] h d = d
or_default-RunsBaseline name ((n, p) ∷ entries) h d = elim (Bool-cases (str_eq n name)) [
  | inl e ↦ rw e h.0
  | inr e ↦ rw e (or_default-RunsBaseline name entries h.1 d)
]

default_policy-RunsBaseline : RunsBaseline default_policy
unfolding runs_check
default_policy-RunsBaseline c h = h

extended :
    (more : List Check) (c : Check)
    → has_check c baseline_checks ≡ true
    → has_check c (baseline_checks ++ more) ≡ true
extended more c = has_check-append c baseline_checks more

policy-RunsBaseline : All (λ e. RunsBaseline e.1) policy
unfolding runs_check
policy-RunsBaseline =
    let extract = extended (chk_intent_correctness ∷ chk_irrelevant_sections ∷ []) in
    (
      extended (chk_management_question_answer ∷ []),
      (extract, (extract, (λ c h. h, (λ c h. h, (λ c h. h, (extract, (λ c h. h, tt))))))),
    )

-- Whatever the name of the report type, its policy runs every baseline check.
pub policy_for-runs :
    (name : Option String) (c : Check)
    → has_check c baseline_checks ≡ true
    → runs_check (policy_for name) c ≡ true
unfolding policy_for
policy_for-runs none c h = default_policy-RunsBaseline c h
policy_for-runs (some name) c h = elim (Bool-cases (is_empty_text name)) [
  | inl e ↦ rw e (default_policy-RunsBaseline c h)
  | inr e ↦
      rw e (or_default-RunsBaseline name policy policy-RunsBaseline default_policy-RunsBaseline c h)
]
