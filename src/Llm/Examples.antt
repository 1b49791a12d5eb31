-- ===== src/Llm/Examples.antt =====
-- The theorems on the client, on two calls to a provider: one that it answers and one that it fails.
use decision_center.Base.{true, false, none, some, List, [], ◌∷◌, ◌<◌, ◌+◌, arith}
use decision_center.Base.Effect.{done, raised}
use decision_center.Llm.{TextTools, Settings}
use decision_center.Llm.Tracker.{CostTracker, check_reset, transport_error}
use decision_center.Llm.Call.{LlmRequest, Answer, call_llm}
use decision_center.Llm.Guardrails.{
  Served, replies, serve_calls, largest_overrun, serve_calls-daily_cost,
}
use decision_center.Llm.Refusals.{Justified, call_llm-Justified}
use decision_center.Llm.Log.{Agree}
use decision_center.Llm.Accounts.{log_of, serve_calls-Agree}

abbrev plain_tools : TextTools
plain_tools = record {
  stripped_lower = λ text. text;
  count_words = λ text. 100;
  block_injections = λ text. text;
  fence_body = λ text. none;
  splitlines = λ text. text ∷ [];
  lower = λ text. text;
  after_colon = λ text. text;
  with_spaces = λ text. text;
  dumps = λ value. "{}";
}

abbrev deepseek_settings : Settings
deepseek_settings = record {
  llm_provider = some "deepseek";
  deepseek_api_key = some "key";
  anthropic_api_key = none;
  anthropic_installed = false;
  daily_cost_cap = 1000000000;
}

abbrev draft_request : LlmRequest
draft_request = record {
  prompt = "Draft the report.";
  tier = "heavy";
  request_id = "r-1";
  node_name = "node_12_draft_json";
  expect_json = true;
  max_tokens = some 4000;
  begun_on = "2026-06-12";
  billed_on = "2026-06-12";
}

abbrev short_answer : Answer
short_answer = record { answer_text = "{}"; billed_input = 120; billed_output = 900 }

abbrev two_calls : List Served
two_calls =
    record { request = draft_request; reply = done short_answer }
    ∷ record { request = draft_request; reply = raised (transport_error "HTTPStatusError") }
    ∷ []

abbrev fresh : CostTracker
fresh = record {
  daily_cost = 0;
  last_reset = "2026-06-12";
  token_usage = [];
  model_calls = [];
  model_costs = [];
}

-- The day's cap is reached but for the estimate of one call.
abbrev late : CostTracker
late = record fresh { daily_cost = 999999999 }

abbrev failing_call : Served
failing_call = record {
  request = draft_request;
  reply = raised (transport_error "HTTPStatusError");
}

call_llm-Justified_example :
    Justified plain_tools deepseek_settings failing_call
      (check_reset draft_request.begun_on late)
      (call_llm plain_tools deepseek_settings (replies failing_call) draft_request late)
call_llm-Justified_example = call_llm-Justified plain_tools deepseek_settings failing_call late

serve_calls-daily_cost_example :
    (serve_calls plain_tools deepseek_settings two_calls fresh).daily_cost
    < deepseek_settings.daily_cost_cap + largest_overrun plain_tools deepseek_settings two_calls
serve_calls-daily_cost_example =
    serve_calls-daily_cost plain_tools deepseek_settings two_calls fresh (omega arith)

serve_calls-Agree_example :
    Agree
      (log_of plain_tools deepseek_settings two_calls fresh)
      fresh
      (serve_calls plain_tools deepseek_settings two_calls fresh)
serve_calls-Agree_example = serve_calls-Agree plain_tools deepseek_settings two_calls fresh
