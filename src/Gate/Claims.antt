-- ===== src/Gate/Claims.antt =====
-- `_collect_claims`, `_check_claims`, `_check_financials`, `_check_sources`, `_check_conflicts` and
-- `_check_executive_summary` of the quality gate.
use decision_center.Base.{
  Bool, true, false, ◌&&◌, not, Option, none, some, String, List, [], ◌∷◌, ◌++◌, ℕ, suc,
  if◌then◌else◌, is_empty,
}
use decision_center.Base.Fallible.{Py, ok, ◌>>=◌}
use decision_center.Json.{
  Value, Items, Fields, list, nil, dict, get, iterate, iterate?, in_set, text_list, truthy, as_dict,
  dict_or_empty, equals_text,
}
use decision_center.Gate.{
  supported, unsupported, needs_review, ClaimId, item, part, named, ClaimCheck, flag, flag_if,
  collect, claim_sections, figures,
}

-- The dicts among the items of a section, with their indices.
unfoldable pub dict_items : String → ℕ → List Value → List (ClaimId × Fields)
dict_items section i [] = []
dict_items section i (dict fs ∷ vs) = (item section i, fs) ∷ dict_items section (suc i) vs
dict_items section i (_ ∷ vs) = dict_items section (suc i) vs

unfoldable pub section_claims : Fields → String → Py (List (ClaimId × Fields))
section_claims report section = do vs ← iterate? (get section report); ok (dict_items section 0 vs)

-- `_collect_claims`
unfoldable pub collect_claims : Fields → Py (List (ClaimId × Fields))
collect_claims report = collect (section_claims report) claim_sections

-- `[e for e in eids if e not in evidence_ids]`
unfoldable pub invalid_ids : List String → List Value → Py (List Value)
invalid_ids ids [] = ok []
invalid_ids ids (v ∷ vs) = do
  known ← in_set ids v
  rest ← invalid_ids ids vs
  ok (if known then rest else v ∷ rest)

-- The body of `_check_claims` on the value of `evidence_ids`.
unfoldable pub check_cited : List String → ClaimId → Value → Py (List ClaimCheck)
check_cited ids id eids = do
  vs ← iterate eids
  invalid ← invalid_ids ids vs
  cited ← text_list eids
  ok (
      record {
        claim_id = id;
        verdict = if is_empty invalid then supported else unsupported;
        evidence_ids = cited;
      }
      ∷ [])

unfoldable pub check_evidence : List String → ClaimId → Option Value → Py (List ClaimCheck)
check_evidence ids id none = ok (flag id unsupported ∷ [])
check_evidence ids id (some eids) =
    if truthy eids then check_cited ids id eids else ok (flag id unsupported ∷ [])

unfoldable pub check_claim : List String → ClaimId × Fields → Py (List ClaimCheck)
check_claim ids (id, fs) = check_evidence ids id (get "evidence_ids" fs)

-- `_check_claims`
unfoldable pub check_claims : List String → Fields → Py (List ClaimCheck)
check_claims ids report = do claims ← collect_claims report; collect (check_claim ids) claims

-- An available figure must cite an id of the pack; a truthy id that is no text raises.
unfoldable pub check_figure_id : List String → String → Option Value → Py (List ClaimCheck)
check_figure_id ids name none = ok (flag (part "financial_snapshot" name) unsupported ∷ [])
check_figure_id ids name (some eid) =
    if truthy eid
    then (do
      known ← in_set ids eid
      cited ← text_list (list (Items.cons eid nil))
      ok (
          if known
          then []
          else record {
            claim_id = part "financial_snapshot" name;
            verdict = unsupported;
            evidence_ids = cited;
          }
            ∷ []))
    else ok (flag (part "financial_snapshot" name) unsupported ∷ [])

unfoldable pub check_node : List String → String → Option Fields → Py (List ClaimCheck)
check_node ids name none = ok []
check_node ids name (some node) =
    if equals_text "available" (get "status" node)
    then check_figure_id ids name (get "evidence_id" node)
    else ok []

unfoldable pub check_figure : List String → Fields → String → Py (List ClaimCheck)
check_figure ids fs name = check_node ids name (as_dict (get name fs))

-- The ids of the variance: only a list with an invalid id is reported.
unfoldable pub check_variance_ids : List String → Option Value → Py (List ClaimCheck)
check_variance_ids ids none = ok []
check_variance_ids ids (some eids) =
    if truthy eids
    then (do
      vs ← iterate eids
      invalid ← invalid_ids ids vs
      if is_empty invalid then ok [] else do
        cited ← text_list eids
        ok (
            record {
              claim_id = part "financial_snapshot" "variance";
              verdict = unsupported;
              evidence_ids = cited;
            }
            ∷ []))
    else ok []

unfoldable pub check_variance : List String → Fields → Py (List ClaimCheck)
check_variance ids fs = elim (as_dict (get "variance" fs)) [
  | none ↦ ok []
  | some variance ↦ check_variance_ids ids (get "evidence_ids" variance)
]

unfoldable pub check_snapshot : List String → Option Fields → Py (List ClaimCheck)
check_snapshot ids none = ok []
check_snapshot ids (some fs) = do
  found ← collect (check_figure ids fs) figures
  variance ← check_variance ids fs
  ok (found ++ variance)

-- `_check_financials`
unfoldable pub check_financials : List String → Fields → Py (List ClaimCheck)
check_financials ids report = check_snapshot ids (dict_or_empty (get "financial_snapshot" report))

-- `not isinstance(report.get(key, []), list)`
abbrev pub not_a_list : Option Value → Bool
not_a_list none = false
not_a_list (some (list vs)) = false
not_a_list (some _) = true

-- `_check_sources` and `_check_conflicts`
unfoldable pub check_sources : Fields → List ClaimCheck
check_sources report = flag_if (not_a_list (get "sources" report)) (named "sources") needs_review

unfoldable pub check_conflicts : Fields → List ClaimCheck
check_conflicts report =
    flag_if (not_a_list (get "conflicts" report)) (named "conflicts") needs_review

abbrev pub is_empty_list : Option Value → Bool
is_empty_list (some (list nil)) = true
is_empty_list _ = false

-- `_check_executive_summary`
unfoldable pub check_executive_summary : Fields → List String → List ClaimCheck
check_executive_summary report evidence =
    flag_if (is_empty_list (get "executive_summary" report) && not (is_empty evidence))
      (named "executive_summary") unsupported
