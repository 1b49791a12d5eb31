-- ===== src/Gate.antt =====
-- The quality gate, apps/edr/graph/node_13_quality_gate.py: what its checks are made of.
pub mod Claims
pub mod Content
pub mod Memo
pub mod Run
pub mod Grounding
pub mod Passed
pub mod Dispatch
pub mod Promises
mod Examples
use decision_center.Base.{
  Bool, true, false, Option, none, some, String, List, [], ◌∷◌, ◌++◌, ℕ, suc, if◌then◌else◌,
}
use decision_center.Base.Fallible.{Py, ok, ◌>>=◌}
use decision_center.Json.{Value, Fields}

pub data Verdict : Type 0 where
  supported unsupported needs_review : Verdict

-- A claim_id by its parts: `{section}[{index}]`, `{section}[{index}].raw_filename`,
-- `{object}.{field}`, or a name.
pub data ClaimId : Type 0 where
  item raw_filename : String → ℕ → ClaimId
  part : String → String → ClaimId
  named : String → ClaimId

-- `ClaimCheck`, less the text of its reason.
pub record ClaimCheck : Type 0 where
  pub claim_id : ClaimId
  pub verdict : Verdict
  pub evidence_ids : List String

-- What Python does with texts: `str(v)`, `strip`, `lower`, `needle in haystack`, `" ".join`, and
-- the patterns of the node as tests.
pub record TextOps : Type 0 where
  pub str_of : Value → String
  pub strip : String → String
  pub lower : String → String
  pub occurs_in : String → String → Bool
  pub join : List String → String
  pub filename_re : String → Bool
  pub filename_embedded_re : String → Bool
  pub search_summary_re : String → Bool

-- A check without evidence ids.
abbrev pub flag : ClaimId → Verdict → ClaimCheck
flag id v = record { claim_id = id; verdict = v; evidence_ids = [] }

abbrev pub flag_if : Bool → ClaimId → Verdict → List ClaimCheck
flag_if test id v = if test then flag id v ∷ [] else []

-- The checks of a loop body, one after the other.
unfoldable pub collect {ℓ κ} : {A : Type ℓ} {B : Type κ} → (A → Py (List B)) → List A → Py (List B)
collect f [] = ok []
collect f (x ∷ xs) = do first ← f x; rest ← collect f xs; ok (first ++ rest)

-- The sections that carry claims.
abbrev pub claim_sections : List String
claim_sections =
    "executive_summary" ∷ "key_findings" ∷ "root_causes" ∷ "delay_analysis"
    ∷ "contractual_implications" ∷ "recommended_actions" ∷ []

-- The figures of the financial snapshot.
abbrev pub figures : List String
figures =
    "budget" ∷ "contract_value" ∷ "estimate" ∷ "actual_cost" ∷ "payroll_cost" ∷ "expense_cost"
    ∷ "committed_cost" ∷ "total_incurred" ∷ []
