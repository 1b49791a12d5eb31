-- ===== src/Llm/Fallback.antt =====
-- `_deterministic_output` and its helpers: the placeholder that stands for a model's answer where no
-- API key is set.
use Prim.Native.String.{◌++◌}
use package.text.Mathlib.Text.{starts_with, find?}
use decision_center.Base.{
  Bool, true, false, Option, none, some, String, List, [], ◌∷◌, str_eq, if◌then◌else◌,
  is_empty_text, any_of, ℕ,
}
use decision_center.Json.{Value, null, boolean, text, list, dict, nil, cons, Fields, field, end}
use decision_center.Llm.{TextTools}

-- The lines of a prompt, searched for `name:` at the start, the name as it is or with spaces.
unfoldable pub find_field : TextTools → String → List String → Option String
find_field tools name [] = none
find_field tools name (line ∷ lines) =
    let later = find_field tools name lines in
    if starts_with (tools.lower line) (name ++ ":")
    then some (tools.after_colon line)
    else if starts_with (tools.lower line) (tools.with_spaces name ++ ":")
    then some (tools.after_colon line)
    else later

-- `_extract_field`
unfoldable pub extract_field : TextTools → String → String → Option String
extract_field tools prompt name = find_field tools name (tools.splitlines prompt)

-- The text after `query:` in the first line that begins so; "" if none does.
unfoldable pub find_query_line : TextTools → List String → String
find_query_line tools [] = ""
find_query_line tools (line ∷ lines) =
    let later = find_query_line tools lines in
    if starts_with (tools.lower line) "query:" then tools.lower (tools.after_colon line) else later

abbrev pub query_line_or : String → String → String
query_line_or line prompt = if is_empty_text line then prompt else line

-- `_INTENT_KEYWORDS`
abbrev pub intent_keywords : List (String × List String)
intent_keywords =
    ("budget_actual", "budget" ∷ "actual cost" ∷ "cost vs budget" ∷ "financial status" ∷ [])
    ∷ ("delay", "delay" ∷ "late" ∷ "extension of time" ∷ "eot" ∷ "schedule" ∷ [])
    ∷ ("contract_risk", "contract" ∷ "risk" ∷ "breach" ∷ "terms" ∷ [])
    ∷ ("claim", "claim" ∷ "dispute" ∷ "penalty" ∷ [])
    ∷ ("procurement", "procurement" ∷ "purchase order" ∷ "po" ∷ "vendor selection" ∷ [])
    ∷ ("document_control", "document" ∷ "submittal" ∷ "rfi" ∷ "drawing" ∷ [])
    ∷ ("payment", "payment" ∷ "invoice" ∷ "certification" ∷ [])
    ∷ ("variation", "variation" ∷ "change order" ∷ "scope change" ∷ [])
    ∷ []

abbrev found : Option ℕ → Bool
found none = false
found (some place) = true

-- `keyword in line`
abbrev pub mentions : String → String → Bool
mentions line keyword = found (find? line keyword)

unfoldable pub first_intent : String → List (String × List String) → String
first_intent line [] = "general_project_status"
first_intent line ((intent, keywords) ∷ rest) =
    let later = first_intent line rest in if any_of (mentions line) keywords then intent else later

-- `_infer_intent_from_query`
unfoldable pub infer_intent_from_query : TextTools → String → String
infer_intent_from_query tools prompt =
    first_intent
      (query_line_or (find_query_line tools (tools.splitlines prompt)) (tools.lower prompt))
      intent_keywords

-- What `json.dumps` makes of None and of a text, of `x or ""` and of `x or None`.
abbrev pub text_or_null : Option String → Value
text_or_null none = null
text_or_null (some s) = text s

abbrev pub text_or_empty : Option String → Value
text_or_empty none = text ""
text_or_empty (some s) = text s

abbrev pub filled_or_null : Option String → Value
filled_or_null none = null
filled_or_null (some s) = if is_empty_text s then null else text s

abbrev pub empty_list : Value
empty_list = list nil

abbrev pub two_sources : Value
two_sources = list (cons (text "sharepoint") (cons (text "odoo") nil))

abbrev pub scope_fallback : TextTools → String → Fields
scope_fallback tools prompt =
    field "project_code" (text_or_null (extract_field tools prompt "project_code")) (
      field "contract_no" (text_or_null (extract_field tools prompt "contract_no")) (
        field "vendor" (text_or_null (extract_field tools prompt "vendor")) (
          field "date_range" (text_or_null (extract_field tools prompt "date_range")) (
            field "document_type" (text_or_null (extract_field tools prompt "document_type")) (
              field "mailbox_scope" (text_or_null (extract_field tools prompt "mailbox_scope"))
                (field "missing" empty_list end))))))

abbrev pub missing_amount : Value
missing_amount = dict (
    field "value" null (
      field "currency" (text "AED")
        (field "evidence_id" null (field "status" (text "not_available") end))))

abbrev pub financial_snapshot : Value
financial_snapshot = dict (
    field "budget" missing_amount (
      field "actual_cost" missing_amount (
        field "variance"
          (dict (
            field "value" null (
              field "currency" (text "AED")
                (field "formula" null (field "evidence_ids" empty_list end)))))
          end)))

abbrev pub no_answer : Value
no_answer = dict (
    field "executive_answer" (text "") (
      field "why_biggest_problem" empty_list (
        field "evidence_used" empty_list (
          field "business_impact"
            (dict (
              field "schedule_impact" (text "") (
                field "cost_commercial_impact" (text "")
                  (field "operational_client_impact" (text "") end))))
            (field "decision_required" (text "") (
              field "recommended_action"
                (dict (
                  field "specific_action" (text "")
                    (field "owner_role" (text "") (field "timeframe" (text "") end))))
                (field "risks_if_no_action" (text "") (
                  field "confidence" (text "low") (
                    field "missing_evidence_or_assumptions"
                      (text "Fallback mode — no LLM synthesis.") end)))))))))

-- The minimal report shell.
abbrev pub report_shell : TextTools → String → Fields
report_shell tools prompt =
    field "request_id" (text_or_empty (extract_field tools prompt "request_id")) (
      field "project_code" (filled_or_null (extract_field tools prompt "project_code")) (
        field "query" (text_or_empty (extract_field tools prompt "query")) (
          field "language" (text "en") (
            field "executive_summary" empty_list (
              field "financial_snapshot" financial_snapshot (
                field "key_findings" empty_list (
                  field "root_causes" empty_list (
                    field "delay_analysis" empty_list (
                      field "contractual_implications" empty_list (
                        field "recommended_actions" empty_list (
                          field "management_question_answer" no_answer (
                            field "missing_data"
                              (list (cons (text "No evidence available in fallback mode.") nil))
                              (field "conflicts" empty_list (
                                field "sources" empty_list
                                  (field "quality_gate_status" (text "not_run") end)))))))))))))))

abbrev pub corrective_plan : TextTools → String → Fields
corrective_plan tools prompt = field "action" (text "retry_with_narrowed_query") (
    field "new_query" (text_or_empty (extract_field tools prompt "query"))
      (field "target_sources" two_sources end))

abbrev pub generic_fallback : TextTools → Bool → String → String
generic_fallback tools expect_json node_name =
    if expect_json
    then tools.dumps (dict (field "fallback" (boolean true) (field "node" (text node_name) end)))
    else "<!-- fallback output for " ++ node_name ++ " -->"

-- `_deterministic_output`
unfoldable pub deterministic_output : TextTools → String → Bool → String → String
deterministic_output tools prompt expect_json node_name =
    if str_eq node_name "node_02_intent"
    then tools.dumps
        (dict (field "intents" (list (cons (text (infer_intent_from_query tools prompt)) nil)) end))
    else if str_eq node_name "node_03_scope"
    then tools.dumps (dict (scope_fallback tools prompt))
    else if str_eq node_name "node_04_plan"
    then tools.dumps (
        dict (
          field "sources" two_sources (
            field "reason" (text "Fallback plan: query project documents and financial data.")
              end)))
    else if str_eq node_name "node_11_self_correct"
    then tools.dumps (dict (corrective_plan tools prompt))
    else if str_eq node_name "node_12_draft_json"
    then tools.dumps (dict (report_shell tools prompt))
    else if str_eq node_name "node_14_compose_md"
    then "# Executive Decision Report\n\n_Fallback mode — no LLM available._\n"
    else generic_fallback tools expect_json node_name
