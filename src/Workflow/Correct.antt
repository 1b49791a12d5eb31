-- ===== src/Workflow/Correct.antt =====
-- node_10_sufficiency.py and node_11_self_correct.py: whether the evidence suffices, and one more
-- retrieval where it does not. An evidence item is kept as its source type. What the connectors find
-- is an argument, `none` where the branch of a source raises.
use decision_center.Base.{
  Bool, true, false, not, ◌&&◌, ◌||◌, Option, none, some, String, List, [], ◌∷◌, ◌++◌, ℕ, suc, ◌+◌,
  ◌-◌, str_eq, ltb, leb, if◌then◌else◌, any_of, is_empty, length,
}
use decision_center.Base.Dict.{Dict, lookup, insert, string_key}
use decision_center.Base.Effect.{pure, ◌>>=◌}
use decision_center.Base.Fallible.{Py, ok, raise, type_error}
use decision_center.Json.{
  Value, null, text, list, dict, Items, nil, cons, Fields, field, end, get, truthy?, equals_text,
}
use decision_center.Llm.{TextTools, Settings}
use decision_center.Llm.Tracker.{Exec}
use decision_center.Llm.Call.{LlmResult, Transport, call_llm}
use decision_center.Workflow.{occurs_in}
use decision_center.Workflow.Plan.{Run, light_request}

abbrev pub financial_keywords : List String
financial_keywords =
    "budget" ∷ "cost" ∷ "payment" ∷ "invoice" ∷ "contract value" ∷ "actual cost" ∷ []

abbrev count_or_zero : Option ℕ → ℕ
count_or_zero none = 0
count_or_zero (some n) = n

-- `Counter(...)`
unfoldable pub count_sources : List String → Dict String ℕ → Dict String ℕ
count_sources [] counts = counts
count_sources (s ∷ ss) counts =
    count_sources ss (insert s (suc (count_or_zero (lookup s counts))) counts)

pub record Sufficiency : Type 0 where
  pub is_sufficient : Bool
  pub missing_source : List String
  pub evidence_by_source : Dict String ℕ
  pub is_complex : Bool

abbrev pub is_financial : String → Bool
is_financial lower_query = any_of (λ keyword. occurs_in keyword lower_query) financial_keywords

-- `counts.get("odoo", 0) > 0`
abbrev pub has_source : String → Dict String ℕ → Bool
has_source name counts = ltb 0 (count_or_zero (lookup name counts))

abbrev pub missing_for : Bool → List String
missing_for lacks_odoo = if lacks_odoo then "odoo" ∷ [] else []

-- `run` of node_10
unfoldable pub sufficiency_node : String → List String → Sufficiency
sufficiency_node lower_query evidence =
    let counts = count_sources evidence [] in
    let missing = missing_for (is_financial lower_query && not (has_source "odoo" counts)) in
    record {
      is_sufficient = is_empty missing && not (is_empty evidence);
      missing_source = missing;
      evidence_by_source = counts;
      is_complex = ltb 3 (length counts) && ltb 20 (length evidence);
    }

abbrev pub max_loops : ℕ
max_loops = 3

pub data CorrectionStatus : Type 0 where
  stopped_max_loops not_needed stopped retried : CorrectionStatus

-- The part of the state that node_11 reads and writes; the plan is kept where it was tried.
pub record Correction : Type 0 where
  pub loop_count : ℕ
  pub evidence : List String
  pub cost_accumulated : ℕ
  pub correction_status : Option CorrectionStatus
  pub correction_added : Option ℕ
  pub correction_plan : Option Fields

-- `name in targets`: a text is searched, null, a number or a Boolean raises
unfoldable pub holds_text : String → Items → Bool
holds_text name nil = false
holds_text name (cons v vs) =
    let later = holds_text name vs in if equals_text name (some v) then true else later

unfoldable pub holds_key : String → Fields → Bool
holds_key name end = false
holds_key name (field k v rest) =
    let later = holds_key name rest in if str_eq k name then true else later

abbrev pub in_targets : String → Option Value → Py Bool
in_targets name none = ok false
in_targets name (some (text s)) = ok (occurs_in name s)
in_targets name (some (list vs)) = ok (holds_text name vs)
in_targets name (some (dict fs)) = ok (holds_key name fs)
in_targets name (some _) = raise type_error

-- What the two branches of the retrieval find under a query: `plan.get("new_query")` if it is set.
pub record Retrieval : Type 0 where
  pub from_sharepoint : Option Value → Option (List String)
  pub from_odoo : Option (List String)

abbrev pub or_nothing_new : Option (List String) → List String
or_nothing_new none = []
or_nothing_new (some found) = found

abbrev pub if_target : Bool → List String → List String
if_target test found = if test then found else []

-- `plan.get("new_query") or state.query`; `none` stands for the query of the state
abbrev pub new_query : Fields → Option Value
new_query plan = if truthy? (get "new_query" plan) then get "new_query" plan else none

abbrev pub then_odoo : Retrieval → Bool → List String → Py Bool → List String
then_odoo sources has_project found (ok targeted) =
    found ++ if_target (targeted && has_project) (or_nothing_new sources.from_odoo)
then_odoo sources has_project found (raise e) = found

abbrev pub then_sharepoint : Retrieval → Bool → Fields → Py Bool → List String
then_sharepoint sources has_project plan (ok targeted) =
    then_odoo sources has_project
      (if_target (targeted && has_project)
        (or_nothing_new (sources.from_sharepoint (new_query plan))))
      (in_targets "odoo" (get "target_sources" plan))
then_sharepoint sources has_project plan (raise e) = []

-- `_try_retrieval`: the new evidence; targets that cannot be searched raise, which the caller catches
unfoldable pub try_retrieval : Retrieval → Bool → Fields → List String
try_retrieval sources has_project plan =
    then_sharepoint sources has_project plan (in_targets "sharepoint" (get "target_sources" plan))

abbrev pub stop_plan : Fields
stop_plan =
    field "action" (text "stop")
      (field "new_query" null (field "target_sources" (list nil) (field "reason" (text "") end)))

abbrev pub corrective_plan_of : Option Value → Fields
corrective_plan_of (some (dict fs)) = fs
corrective_plan_of _ = stop_plan

-- `plan.get("action", "stop") == "stop"`
abbrev pub is_stop : Option Value → Bool
is_stop none = true
is_stop (some v) = equals_text "stop" (some v)

abbrev pub finished : CorrectionStatus → Correction → Correction
finished status s = record s { correction_status = some status }

-- The plan is followed, or the loop stops.
unfoldable pub follow_plan : Retrieval → Bool → Fields → Correction → Correction
follow_plan sources has_project plan s =
    if is_stop (get "action" plan) || leb (max_loops - 1) s.loop_count
    then record s { loop_count = s.loop_count + 1; correction_status = some stopped }
    else record s {
      loop_count = s.loop_count + 1;
      evidence = s.evidence ++ try_retrieval sources has_project plan;
      correction_status = some retried;
      correction_added = some (length (try_retrieval sources has_project plan));
      correction_plan = some plan;
    }

abbrev pub charged : LlmResult → Correction → Correction
charged result s = record s { cost_accumulated = s.cost_accumulated + result.cost_usd }

module _ (tools : TextTools) (settings : Settings) (transport : Transport)
    (loads : String → Option Value) where
  unfoldable pub ask_for_plan : Run → String → Retrieval → Bool → Correction → Exec Correction
  ask_for_plan run prompt sources has_project s = do
    result ← call_llm tools settings transport (light_request run "node_11_self_correct" prompt)
    pure (
        follow_plan sources has_project (corrective_plan_of (loads result.content))
          (charged result s))

  -- `run` of node_11; the flag is `evidence_sufficiency == "sufficient"`
  unfoldable pub self_correct_node :
      Run → String → Retrieval → Bool → Bool → Correction → Exec Correction
  self_correct_node run prompt sources has_project sufficient s =
      if leb max_loops s.loop_count
      then pure (finished stopped_max_loops s)
      else if sufficient
      then pure (finished not_needed s)
      else ask_for_plan run prompt sources has_project s
