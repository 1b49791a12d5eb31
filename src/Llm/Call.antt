-- ===== src/Llm/Call.antt =====
-- `call_llm` and `_fallback_result`. The transports to the providers are an argument: while one waits,
-- other calls may change the tracker. A trace to Langfuse changes nothing that the module reads.
use decision_center.Base.{Bool, Option, none, some, String, ℕ, zero, suc, ltb, if◌then◌else◌}
use decision_center.Base.Effect.{pure, throw, modify, ◌>>=◌, ◌>>◌}
use decision_center.Llm.{
  Provider, TextTools, Settings, Caps, active_provider, resolve_model, resolve_caps,
  provider_key_available, sanitize_prompt, strip_code_fences, estimate_cost,
  estimate_tokens_from_text,
}
use decision_center.Llm.Tracker.{token_cap_exceeded, Exec, check_budget, record_cost, record_tokens}
use decision_center.Llm.Fallback.{deterministic_output}

pub record LlmResult : Type 0 where
  pub content : String
  pub input_tokens : ℕ
  pub output_tokens : ℕ
  pub cost_usd : ℕ
  pub model : String

pub record LlmRequest : Type 0 where
  pub prompt : String
  pub tier : String
  pub request_id : String
  pub node_name : String
  pub expect_json : Bool
  pub max_tokens : Option ℕ
  -- the days on which the call begins and on which its cost is recorded
  pub begun_on : String
  pub billed_on : String

-- A transport's answer: content, input tokens, output tokens.
pub record Answer : Type 0 where
  pub answer_text : String
  pub billed_input : ℕ
  pub billed_output : ℕ

-- provider, model, prompt, max_tokens
abbrev pub Transport : Type 0
Transport = Provider → String → String → ℕ → Exec Answer

-- `max_tokens or caps["output"]`
abbrev pub or_cap : Option ℕ → ℕ → ℕ
or_cap none cap = cap
or_cap (some zero) cap = cap
or_cap (some (suc n)) cap = suc n

unfoldable pub raise_if_over : ℕ → ℕ → Exec Unit
raise_if_over cap tokens = if ltb cap tokens then throw token_cap_exceeded else pure tt

unfoldable pub fenced_if : TextTools → Bool → String → String
fenced_if tools expect_json content =
    if expect_json then strip_code_fences tools content else content

module _ (tools : TextTools) (settings : Settings) where
  abbrev pub provider : Provider
  provider = active_provider tools settings

  abbrev pub model_of : LlmRequest → String
  model_of r = resolve_model provider r.tier

  abbrev pub caps_of : LlmRequest → Caps
  caps_of r = resolve_caps provider r.tier

  abbrev pub sanitized : LlmRequest → String
  sanitized r = (sanitize_prompt tools r.prompt).0

  abbrev pub est_input_tokens : LlmRequest → ℕ
  est_input_tokens r = estimate_tokens_from_text tools (sanitized r)

  abbrev pub est_output_tokens : LlmRequest → ℕ
  est_output_tokens r = or_cap r.max_tokens (caps_of r).max_output

  abbrev pub est_cost : LlmRequest → ℕ
  est_cost r = estimate_cost (model_of r) (est_input_tokens r) (est_output_tokens r)

  -- The cost and the tokens are recorded, and the result is returned.
  unfoldable pub bill : LlmRequest → Answer → Exec LlmResult
  bill r a = do
    modify (
        record_cost r.billed_on (estimate_cost (model_of r) a.billed_input a.billed_output)
          (model_of r))
    modify (record_tokens r.request_id a.billed_input a.billed_output)
    pure (record {
      content = a.answer_text;
      input_tokens = a.billed_input;
      output_tokens = a.billed_output;
      cost_usd = estimate_cost (model_of r) a.billed_input a.billed_output;
      model = model_of r;
    })

  abbrev pub fallback_answer : LlmRequest → Answer
  fallback_answer r = record {
    answer_text = deterministic_output tools (sanitized r) r.expect_json r.node_name;
    billed_input = est_input_tokens r;
    billed_output =
        estimate_tokens_from_text tools
          (deterministic_output tools (sanitized r) r.expect_json r.node_name);
  }

  -- `_fallback_result`
  unfoldable pub fallback_result : LlmRequest → Exec LlmResult
  fallback_result r = bill r (fallback_answer r)

  abbrev pub without_fence : LlmRequest → Answer → Answer
  without_fence r a = record a { answer_text = fenced_if tools r.expect_json a.answer_text }

  unfoldable pub provider_result : Transport → LlmRequest → Exec LlmResult
  provider_result transport r = do
    a ← transport provider (model_of r) (sanitized r) (est_output_tokens r)
    bill r (without_fence r a)

  unfoldable pub answer_call : Transport → LlmRequest → Exec LlmResult
  answer_call transport r =
      if provider_key_available settings provider
      then provider_result transport r
      else fallback_result r

  -- `call_llm`
  unfoldable pub call_llm : Transport → LlmRequest → Exec LlmResult
  call_llm transport r = do
    check_budget settings.daily_cost_cap r.begun_on (est_cost r)
    raise_if_over (caps_of r).max_input (est_input_tokens r)
    answer_call transport r
