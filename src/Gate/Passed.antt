-- ===== src/Gate/Passed.antt =====
-- A run of the quality gate that returns, taken apart: the checks that ran and what a `passed`
-- says of each.
use decision_center.Base.{
  true, Option, none, some, String, List, [], ◌∷◌, ◌≡◌, refl, arith, All, is_empty, filter_by, sym,
  ap, subst, ◌∙◌, Bool-cases, inl, inr,
}
use decision_center.Base.Fallible.{ok, >>=-eq-ok, ok-injective}
use decision_center.Json.{Value, Fields, list, dict, text}
use decision_center.Coverage.{summary}
use decision_center.Policy.{
  ReportPolicy, has_check, same_check, runs_check, Check, baseline_checks, chk_claims,
}
use decision_center.Policy.Laws.{policy_for-runs}
use decision_center.Gate.{ClaimId, ClaimCheck, TextOps, collect}
use decision_center.Gate.Claims.{collect_claims, check_claim, check_claims}
use decision_center.Gate.Run.{
  passed, GateResult, GateInput, check_runners, policy_of_value, run_check, run_if, run_gate,
  conclude, verdict_of, blocking_sources, is_unsupported, is_needs_review,
}
use decision_center.Gate.Memo.{effective_type}
use decision_center.Gate.Grounding.{Grounded, collect_parts, check_claim_grounds}

-- Whatever the report type, the policy that is found runs the baseline checks.
policy_of_value-runs :
    (v : Option Value) (c : Check) {p : ReportPolicy}
    → has_check c baseline_checks ≡ true
    → policy_of_value v ≡ ok p
    → runs_check p c ≡ true
unfolding policy_of_value
policy_of_value-runs none c b h = rw (← ok-injective h) (policy_for-runs none c b)
policy_of_value-runs (some (text name)) c b h =
    rw (← ok-injective h) (policy_for-runs (some name) c b)
policy_of_value-runs (some (list vs)) c b h = cc
policy_of_value-runs (some (dict fs)) c b h = cc
policy_of_value-runs (some _) c b h = rw (← ok-injective h) (policy_for-runs none c b)

-- The parts of a run that returns.
pub record GateRun (ops : TextOps) (i : GateInput) (r : GateResult) : Type 0 where
  pub chosen : ReportPolicy
  pub checks : List ClaimCheck
  pub claims : List (ClaimId × Fields)
  pub chooses : policy_of_value (effective_type i.classified i.report) ≡ ok chosen
  pub runs : collect (run_if ops i chosen) check_runners ≡ ok checks
  pub collects : collect_claims i.report ≡ ok claims
  pub concludes : conclude ops i checks claims ≡ r

pub run_gate-GateRun :
    (ops : TextOps) (i : GateInput) (r : GateResult) → run_gate ops i ≡ ok r → GateRun ops i r
unfolding run_gate
run_gate-GateRun ops i r h =
    let (p, chosen, h1) = >>=-eq-ok (policy_of_value (effective_type i.classified i.report)) _ h in
    let (checks, ran, h2) = >>=-eq-ok (collect (run_if ops i p) check_runners) _ h1 in
    let (claims, found, h3) =
      >>=-eq-ok (collect_claims i.report) (λ c. ok (conclude ops i checks c)) h2 in
    record {
      chosen = p;
      checks = checks;
      claims = claims;
      chooses = chosen;
      runs = ran;
      collects = found;
      concludes = ok-injective h3;
    }

pub conclude_passed :
    (ops : TextOps) (i : GateInput) (checks : List ClaimCheck) (claims : List (ClaimId × Fields))
    → (conclude ops i checks claims).verdict ≡ passed
    → (is_empty (filter_by is_unsupported checks) ≡ true)
      × (is_empty (filter_by is_needs_review checks) ≡ true)
      × (is_empty (blocking_sources (summary i.coverage)) ≡ true)
unfolding conclude verdict_of
conclude_passed ops i checks claims h = ground arith

Grounded-claims :
    (ids : List String) (claims : List (ClaimId × Fields))
    → All
        (λ c.
          (ys : List ClaimCheck) × (check_claim ids c ≡ ok ys)
          × (is_empty (filter_by is_unsupported ys) ≡ true))
        claims
    → All (λ c. Grounded ids c.1) claims
Grounded-claims ids [] h = tt
Grounded-claims ids (c ∷ cs) ((ys, h, e), rest) =
    (check_claim_grounds ids c h e, Grounded-claims ids cs rest)

same_check-eq : (c d : Check) → same_check d c ≡ true → d ≡ c
same_check-eq c d h = ground arith

part_at {ℓ} :
    (P : Check → Type ℓ) (c : Check) (cs : List Check) → All P cs → has_check c cs ≡ true → P c
unfolding has_check
part_at P c [] h m = cc
part_at P c (d ∷ ds) h m = elim (Bool-cases (same_check d c)) [
  | inl e ↦ subst P (same_check-eq c d e) h.0
  | inr e ↦ part_at P c ds h.1 (rw e at m)
]

-- A baseline check of a passed gate ran and found nothing unsupported.
pub passed_check :
    (ops : TextOps) (i : GateInput) (r : GateResult) (c : Check)
    → run_gate ops i ≡ ok r
    → r.verdict ≡ passed
    → has_check c baseline_checks ≡ true
    → has_check c check_runners ≡ true
    → (out : List ClaimCheck) × (run_check ops i c ≡ ok out)
      × (is_empty (filter_by is_unsupported out) ≡ true)
      × (is_empty (filter_by is_needs_review out) ≡ true)
unfolding run_if
passed_check ops i r c h v b m =
    let g = run_gate-GateRun ops i r h in
    let clean = conclude_passed ops i g.checks g.claims (ap (λ x. x.verdict) g.concludes ∙ v) in
    let runs = policy_of_value-runs (effective_type i.classified i.report) c b g.chooses in
    let step = run_if ops i g.chosen in
    let (out, found, quiet) =
      part_at
        (λ x.
          (ys : List ClaimCheck) × (step x ≡ ok ys)
          × (is_empty (filter_by is_unsupported ys) ≡ true))
        c check_runners (collect_parts is_unsupported step check_runners g.runs clean.0) m in
    let (out', found', quiet') =
      part_at
        (λ x.
          (ys : List ClaimCheck) × (step x ≡ ok ys)
          × (is_empty (filter_by is_needs_review ys) ≡ true))
        c check_runners (collect_parts is_needs_review step check_runners g.runs clean.1) m in
    let checked = rw runs at found in
    (out, checked, quiet, rw (ok-injective (sym found ∙ found')) quiet')

claims-Grounded :
    (ids : List String) (report : Fields) (claims : List (ClaimId × Fields)) {out : List ClaimCheck}
    → check_claims ids report ≡ ok out
    → is_empty (filter_by is_unsupported out) ≡ true
    → collect_claims report ≡ ok claims
    → All (λ c. Grounded ids c.1) claims
unfolding check_claims
claims-Grounded ids report claims h e found =
    let (claims', found', h1) = >>=-eq-ok (collect_claims report) (collect (check_claim ids)) h in
    let same = ok-injective (sym found' ∙ found) in
    rw same at
      (Grounded-claims ids claims' (collect_parts is_unsupported (check_claim ids) claims' h1 e))

-- A gate that returns `passed` has a report all of whose claims, in every claim section, cite a
-- non-empty list of texts, each the id of an evidence item.
pub passed-Grounded :
    (ops : TextOps) (i : GateInput) (r : GateResult) (claims : List (ClaimId × Fields))
    → run_gate ops i ≡ ok r
    → r.verdict ≡ passed
    → collect_claims i.report ≡ ok claims
    → All (λ c. Grounded i.evidence c.1) claims
unfolding run_check
passed-Grounded ops i r claims h v found =
    let (out, ran, quiet, calm) =
      passed_check ops i r chk_claims h v (unfold has_check in refl) (unfold has_check in refl) in
    claims-Grounded i.evidence i.report claims ran quiet found
