-- ===== src/Workflow/Plan.antt =====
-- node_02_intent.py, node_03_scope.py and node_04_plan.py: each asks the light model and reads its
-- answer. `json.loads` is an argument, `none` where it raises; the prompts are arguments too.
use decision_center.Base.{
  Bool, true, not, ◌&&◌, Option, none, some, String, List, [], ◌∷◌, ℕ, str_eq, if◌then◌else◌,
  contains,
}
use decision_center.Base.Effect.{pure, ◌>>=◌}
use decision_center.Json.{
  Value, text, list, dict, Items, nil, cons, Fields, field, end, get, truthy?,
}
use decision_center.Llm.{TextTools, Settings}
use decision_center.Llm.Tracker.{Exec}
use decision_center.Llm.Call.{LlmRequest, Transport, call_llm}
use decision_center.Policy.{Patterns, classify_report_type}
use decision_center.Workflow.{occurs_in}

-- What a call needs of the run: its request id and the days of the call.
pub record Run : Type 0 where
  pub run_id : String
  pub starts_on : String
  pub ends_on : String

abbrev pub light_request : Run → String → String → LlmRequest
light_request run node prompt = record {
  prompt = prompt;
  tier = "light";
  request_id = run.run_id;
  node_name = node;
  expect_json = true;
  max_tokens = some 2000;
  begun_on = run.starts_on;
  billed_on = run.ends_on;
}

-- The texts among the elements of a list.
unfoldable pub texts_of : Items → List String
texts_of nil = []
texts_of (cons (text s) vs) = s ∷ texts_of vs
texts_of (cons _ vs) = texts_of vs

abbrev pub or_general : List String → List String
or_general [] = "general_project_status" ∷ []
or_general (intent ∷ intents) = intent ∷ intents

-- `data.get("intents", [])`, by its type
abbrev pub raw_intents : Option Value → List String
raw_intents none = []
raw_intents (some (text s)) = s ∷ []
raw_intents (some (list vs)) = texts_of vs
raw_intents (some _) = "general_project_status" ∷ []

-- The intents of node_02; an answer that is no object raises and leaves the default.
unfoldable pub intents_of : Option Value → List String
intents_of (some (dict fs)) = or_general (raw_intents (get "intents" fs))
intents_of _ = "general_project_status" ∷ []

-- d[key] = v
unfoldable pub put : String → Value → Fields → Fields
put key v end = field key v end
put key v (field k w rest) =
    let later = put key v rest in if str_eq k key then field k v rest else field k w later

abbrev pub scope_keys : List String
scope_keys =
    "project_code" ∷ "contract_no" ∷ "vendor" ∷ "date_range" ∷ "document_type" ∷ "mailbox_scope"
    ∷ []

abbrev pub fill : String → Option Value → Fields → Fields
fill key none scope = scope
fill key (some v) scope = put key v scope

-- if state.inputs.get(key) and not scope.get(key): scope[key] = state.inputs[key]
unfoldable pub merge_key : Fields → String → Fields → Fields
merge_key inputs key scope =
    if truthy? (get key inputs) && not (truthy? (get key scope))
    then fill key (get key inputs) scope
    else scope

unfoldable pub merge_inputs : Fields → List String → Fields → Fields
merge_inputs inputs [] scope = scope
merge_inputs inputs (key ∷ keys) scope = merge_inputs inputs keys (merge_key inputs key scope)

abbrev pub parsed_scope : Option Value → Fields
parsed_scope (some (dict fs)) = fs
parsed_scope _ = field "missing" (list nil) end

-- The scope of node_03.
unfoldable pub scope_of : Fields → Option Value → Fields
scope_of inputs parsed = merge_inputs inputs scope_keys (parsed_scope parsed)

abbrev pub default_sources : List String
default_sources = "sharepoint" ∷ "odoo" ∷ []

unfoldable pub items_of : List String → Items
items_of [] = nil
items_of (s ∷ ss) = cons (text s) (items_of ss)

unfoldable pub fallback_plan : Fields
unfolding items_of
fallback_plan =
    field "sources" (list (items_of default_sources)) (field "reason" (text "Fallback plan") end)

abbrev pub parsed_plan : Option Value → Fields
parsed_plan (some (dict fs)) = fs
parsed_plan _ = fallback_plan

-- `plan.get("sources", [])`, by its type
abbrev pub raw_sources : Option Value → List String
raw_sources none = []
raw_sources (some (text s)) = s ∷ []
raw_sources (some (list vs)) = texts_of vs
raw_sources (some _) = default_sources

-- `sources.remove(name)`
unfoldable pub remove_first : String → List String → List String
remove_first name [] = []
remove_first name (s ∷ ss) =
    let later = remove_first name ss in if str_eq s name then ss else s ∷ later

abbrev pub asks_for_cad : String → Bool
asks_for_cad lower_query =
    if occurs_in "drawing" lower_query then true else occurs_in "cad" lower_query

-- The rule that CAD is off unless the query asks for it.
unfoldable pub without_cad : String → List String → List String
without_cad lower_query sources =
    if contains "cad" sources && not (asks_for_cad lower_query)
    then remove_first "cad" sources
    else sources

unfoldable pub plan_of : String → Option Value → Fields
plan_of lower_query parsed =
    put "sources"
      (list (items_of (without_cad lower_query (raw_sources (get "sources" (parsed_plan parsed))))))
      (parsed_plan parsed)

pub record Classified : Type 0 where
  pub intent : List String
  pub report_type : String
  pub node_02_cost : ℕ

module _ (tools : TextTools) (settings : Settings) (transport : Transport)
    (loads : String → Option Value) where
  -- `run` of node_02
  unfoldable pub intent_node : Patterns → Run → String → String → Exec Classified
  intent_node patterns run prompt query = do
    result ← call_llm tools settings transport (light_request run "node_02_intent" prompt)
    pure (record {
      intent = intents_of (loads result.content);
      report_type = classify_report_type patterns query;
      node_02_cost = result.cost_usd;
    })

  -- `run` of node_03: the scope and the cost
  unfoldable pub scope_node : Run → String → Fields → Exec (Fields × ℕ)
  scope_node run prompt inputs = do
    result ← call_llm tools settings transport (light_request run "node_03_scope" prompt)
    pure (scope_of inputs (loads result.content), result.cost_usd)

  -- `run` of node_04: the plan and the cost
  unfoldable pub plan_node : Run → String → String → Exec (Fields × ℕ)
  plan_node run prompt lower_query = do
    result ← call_llm tools settings transport (light_request run "node_04_plan" prompt)
    pure (plan_of lower_query (loads result.content), result.cost_usd)
