-- ===== src/Llm/Tracker.antt =====
-- `_CostTracker`. The day is an argument: the text that `strftime` gives when the method runs.
use decision_center.Base.{
  Option, none, some, String, ℕ, suc, ◌+◌, str_eq, leb, if◌then◌else◌, is_empty_text,
}
use decision_center.Base.Dict.{Dict, lookup, insert, string_key}
use decision_center.Base.Effect.{Effect, throw, pure, modify, gets, ◌>>=◌, ◌>>◌}

pub data LlmExc : Type 0 where
  cost_cap_exceeded token_cap_exceeded : LlmExc
  transport_error : String → LlmExc

pub record Usage : Type 0 where
  pub input_used : ℕ
  pub output_used : ℕ

pub record CostTracker : Type 0 where
  pub daily_cost : ℕ
  pub last_reset : String
  pub token_usage : Dict String Usage
  pub model_calls : Dict String ℕ
  pub model_costs : Dict String ℕ

abbrev pub Exec : Type 0 → Type 0
Exec A = Effect CostTracker LlmExc A

abbrev pub zero_if_none : Option ℕ → ℕ
zero_if_none none = 0
zero_if_none (some n) = n

abbrev pub or_unused : Option Usage → Usage
or_unused none = record { input_used = 0; output_used = 0 }
or_unused (some usage) = usage

-- `_check_reset`: of the fields only the daily cost starts afresh
unfoldable pub check_reset : String → CostTracker → CostTracker
check_reset today t =
    if str_eq today t.last_reset then t else record t { daily_cost = 0; last_reset = today }

-- `check_budget`
unfoldable pub check_budget : ℕ → String → ℕ → Exec Unit
check_budget cap today estimated = do
  modify (check_reset today)
  spent ← gets (λ t. t.daily_cost)
  if leb cap (spent + estimated) then throw cost_cap_exceeded else pure tt

-- The part of `record_cost` under `if model`
unfoldable pub charge_model : String → ℕ → CostTracker → CostTracker
charge_model model cost t = if is_empty_text model then t else record t {
  model_calls = insert model (suc (zero_if_none (lookup model t.model_calls))) t.model_calls;
  model_costs = insert model (zero_if_none (lookup model t.model_costs) + cost) t.model_costs;
}

abbrev pub add_cost : ℕ → CostTracker → CostTracker
add_cost cost t = record t { daily_cost = t.daily_cost + cost }

-- `record_cost`
unfoldable pub record_cost : String → ℕ → String → CostTracker → CostTracker
record_cost today cost model t = charge_model model cost (add_cost cost (check_reset today t))

abbrev pub add_usage : ℕ → ℕ → Usage → Usage
add_usage input_tokens output_tokens usage = record {
  input_used = usage.input_used + input_tokens;
  output_used = usage.output_used + output_tokens;
}

-- `get_tokens`
unfoldable pub get_tokens : String → CostTracker → Usage
get_tokens request_id t = or_unused (lookup request_id t.token_usage)

-- `record_tokens`
unfoldable pub record_tokens : String → ℕ → ℕ → CostTracker → CostTracker
record_tokens request_id input_tokens output_tokens t = record t {
  token_usage =
      insert request_id (add_usage input_tokens output_tokens (get_tokens request_id t))
        t.token_usage;
}

-- `get_daily_cost`
unfoldable pub get_daily_cost : String → CostTracker → ℕ × CostTracker
get_daily_cost today t = let u = check_reset today t in (u.daily_cost, u)
