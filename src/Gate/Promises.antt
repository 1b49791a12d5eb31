-- ===== src/Gate/Promises.antt =====
-- What a passed quality gate says of figures, of the identity of the project and of the connectors,
-- and which runs fail.
use decision_center.Base.{
  Bool, true, false, ◌||◌, Option, none, some, String, List, [], ◌∷◌, ◌++◌, ◌≡◌, refl, arith, All,
  is_empty, is_empty_text, filter_by, contains, if◌then◌else◌, sym, ap, ◌∙◌, Bool-cases, inl, inr,
  ltb, All-contains,
}
use decision_center.Base.Fallible.{Py, ok, >>=-eq-ok, ok-injective}
use decision_center.Json.{
  Value, Fields, get, in_set, text_list, truthy, as_dict, dict_or_empty, equals_text, list, cons,
  nil,
}
use decision_center.Coverage.{summary}
use decision_center.Policy.{chk_financials, chk_project_identity, has_check}
use decision_center.Gate.{ClaimId, ClaimCheck, TextOps, collect, figures}
use decision_center.Gate.Claims.{
  collect_claims, check_financials, check_figure, check_figure_id, check_variance, check_node,
  check_snapshot,
}
use decision_center.Gate.Content.{
  check_project_identity, check_identity, check_name, shown_text, is_known_confidence,
}
use decision_center.Gate.Run.{
  GateVerdict, passed, failed, GateResult, GateInput, run_check, run_gate, conclude, verdict_of,
  is_blank, blocking_sources, is_unsupported, is_needs_review,
}
use decision_center.Gate.Grounding.{collect_parts, &&-split, is_empty-filter_by-append}
use decision_center.Gate.Passed.{passed_check, run_gate-GateRun, conclude_passed}

-- A gate that returns `passed` saw no connector error and no source that was not attempted.
pub passed-Connectors :
    (ops : TextOps) (i : GateInput) (r : GateResult)
    → run_gate ops i ≡ ok r
    → r.verdict ≡ passed
    → blocking_sources (summary i.coverage) ≡ []
passed-Connectors ops i r h v =
    let g = run_gate-GateRun ops i r h in
    let clean = conclude_passed ops i g.checks g.claims (ap (λ x. x.verdict) g.concludes ∙ v) in
    nothing (blocking_sources (summary i.coverage)) clean.2
  where
    nothing : (xs : List String) → is_empty xs ≡ true → xs ≡ []
    nothing [] e = refl
    nothing (x ∷ xs) e = cc

-- Whether a verdict is `failed`.
abbrev pub is_failed : GateVerdict → Bool
is_failed failed = true
is_failed _ = false

conclude-failed :
    (ops : TextOps) (i : GateInput) (checks : List ClaimCheck) (claims : List (ClaimId × Fields))
    → is_failed (conclude ops i checks claims).verdict
      ≡ (is_blank ops i claims || ltb 0 (conclude ops i checks claims).unsupported_count)
unfolding conclude verdict_of
conclude-failed ops i checks claims = ground arith

cites :
    (known : Bool) (x : ClaimCheck) {out : List ClaimCheck}
    → ◌≡◌ {A = Py (List ClaimCheck)} (ok (if known then [] else x ∷ [])) (ok out)
    → is_unsupported x ≡ true
    → is_empty (filter_by is_unsupported out) ≡ true
    → known ≡ true
unfolding filter_by
cites true x h u e = refl
cites false x h u e = absurd (grind (arith, h, u, e))

-- A figure's check that finds nothing unsupported saw an id of the pack.
figure_id_known :
    (ids : List String) (name : String) (v : Option Value) {out : List ClaimCheck}
    → check_figure_id ids name v ≡ ok out
    → is_empty (filter_by is_unsupported out) ≡ true
    → (eid : Value) × (v ≡ some eid) × (in_set ids eid ≡ ok true)
unfolding check_figure_id filter_by
figure_id_known ids name none h e = absurd (ground (arith, h, e))
figure_id_known ids name (some eid) h e = elim (Bool-cases (truthy eid)) [
  | inl t ↦
      let (known, h1, h2) = >>=-eq-ok (in_set ids eid) _ (rw t at h) in
      let (cited, h3, h4) = >>=-eq-ok (text_list (list (cons eid nil))) _ h2 in
      (eid, refl, h1 ∙ ap ok (cites known _ h4 refl e))
  | inr t ↦ absurd (ground (arith, rw t at h, e))
]

quiet_append :
    (xs ys out : List ClaimCheck)
    → ◌≡◌ {A = Py (List ClaimCheck)} (ok (xs ++ ys)) (ok out)
    → is_empty (filter_by is_unsupported out) ≡ true
    → is_empty (filter_by is_unsupported xs) ≡ true
quiet_append xs ys out h e =
    let both : is_empty (filter_by is_unsupported (xs ++ ys)) ≡ true = cc (ok-injective h, e) in
    (&&-split (is_empty (filter_by is_unsupported xs)) (is_empty (filter_by is_unsupported ys))
      (sym (is_empty-filter_by-append is_unsupported xs ys) ∙ both)).0

check_node-available :
    (ids : List String) (name : String) (node : Fields) {out : List ClaimCheck}
    → check_node ids name (some node) ≡ ok out
    → equals_text "available" (get "status" node) ≡ true
    → check_figure_id ids name (get "evidence_id" node) ≡ ok out
unfolding check_node
check_node-available ids name node h available = rw available at h

check_snapshot-figures :
    (ids : List String) (fs : Fields) (out : List ClaimCheck)
    → check_snapshot ids (some fs) ≡ ok out
    → is_empty (filter_by is_unsupported out) ≡ true
    → All
        (λ name.
          (ys : List ClaimCheck) × (check_figure ids fs name ≡ ok ys)
          × (is_empty (filter_by is_unsupported ys) ≡ true))
        figures
unfolding check_snapshot
check_snapshot-figures ids fs out h e =
    let (all, h1, rest) = >>=-eq-ok (collect (check_figure ids fs) figures) _ h in
    let (variance, h2, h3) = >>=-eq-ok (check_variance ids fs) (λ x. ok (all ++ x)) rest in
    collect_parts is_unsupported (check_figure ids fs) figures h1
      (quiet_append all variance out h3 e)

-- Each available figure of the financial snapshot of a report that passed the gate has an
-- `evidence_id`, and that is the id of an evidence item.
pub passed-figures :
    (ops : TextOps) (i : GateInput) (r : GateResult) (fs node : Fields) (name : String)
    → run_gate ops i ≡ ok r
    → r.verdict ≡ passed
    → dict_or_empty (get "financial_snapshot" i.report) ≡ some fs
    → contains name figures ≡ true
    → as_dict (get name fs) ≡ some node
    → equals_text "available" (get "status" node) ≡ true
    → (eid : Value) × (get "evidence_id" node ≡ some eid) × (in_set i.evidence eid ≡ ok true)
unfolding run_check check_financials check_figure has_check
passed-figures ops i r fs node name h v snapshot m found available =
    let (out, ran, quiet, _) = passed_check ops i r chk_financials h v refl refl in
    let checked = sym (ap (check_snapshot i.evidence) snapshot) ∙ ran in
    let (ys, one, silent) =
      All-contains
        (λ n.
          (ys : List ClaimCheck) × (check_figure i.evidence fs n ≡ ok ys)
          × (is_empty (filter_by is_unsupported ys) ≡ true))
        name figures (check_snapshot-figures i.evidence fs out checked quiet) m in
    let seen = sym (ap (check_node i.evidence name) found) ∙ one in
    figure_id_known i.evidence name (get "evidence_id" node)
      (check_node-available i.evidence name node seen available) silent

-- A run of the gate fails exactly when a check found something unsupported, or when it has neither
-- claims nor evidence; connector failures alone never fail it.
pub run_gate-failed :
    (ops : TextOps) (i : GateInput) (r : GateResult) (claims : List (ClaimId × Fields))
    → run_gate ops i ≡ ok r
    → collect_claims i.report ≡ ok claims
    → is_failed r.verdict ≡ (is_blank ops i claims || ltb 0 r.unsupported_count)
run_gate-failed ops i r claims h found =
    let g = run_gate-GateRun ops i r h in
    let same = ok-injective (sym g.collects ∙ found) in
    rw (← g.concludes, ← same) (conclude-failed ops i g.checks g.claims)

identity_clean :
    (ops : TextOps) (p : Option Fields)
    → is_empty (filter_by is_unsupported (check_identity ops p)) ≡ true
    → is_empty (filter_by is_needs_review (check_identity ops p)) ≡ true
    → (pid : Fields) × (p ≡ some pid)
      × (is_empty_text (shown_text ops (get "project_name" pid)) ≡ false)
      × (is_known_confidence ops (get "identity_confidence" pid) ≡ true)
      × (is_empty_text (shown_text ops (get "project_code" pid)) ≡ false)
unfolding check_identity check_name filter_by
identity_clean ops none u n = absurd (ground (arith, u))
identity_clean ops (some pid) u n =
    (pid, refl, ground (arith, u, n), ground (arith, u, n), ground (arith, u, n))

-- A report that passed the gate has a project identity with a name, a code, and a confidence that is
-- `verified` or `partial`.
pub passed-identity :
    (ops : TextOps) (i : GateInput) (r : GateResult)
    → run_gate ops i ≡ ok r
    → r.verdict ≡ passed
    → (pid : Fields) × (as_dict (get "project_identity" i.report) ≡ some pid)
      × (is_empty_text (shown_text ops (get "project_name" pid)) ≡ false)
      × (is_known_confidence ops (get "identity_confidence" pid) ≡ true)
      × (is_empty_text (shown_text ops (get "project_code" pid)) ≡ false)
unfolding run_check check_project_identity has_check
passed-identity ops i r h v =
    let (out, ran, quiet, calm) = passed_check ops i r chk_project_identity h v refl refl in
    let same : check_identity ops (as_dict (get "project_identity" i.report)) ≡ out =
      ok-injective ran in
    identity_clean ops (as_dict (get "project_identity" i.report))
      (ap (λ x. is_empty (filter_by is_unsupported x)) same ∙ quiet)
      (ap (λ x. is_empty (filter_by is_needs_review x)) same ∙ calm)
