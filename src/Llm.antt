-- ===== src/Llm.antt =====
-- The client for language models of apps/edr/llm.py: the choice of provider, model and caps, the
-- sanitizer, and the estimates. Costs are in units of 10^-8 USD, in which every rate of the source is
-- a whole number for a token; the source adds floats.
pub mod Tracker
pub mod Fallback
pub mod Call
pub mod Guardrails
pub mod Refusals
pub mod Log
pub mod Accounts
mod Examples
use decision_center.Base.{
  Bool, true, false, not, ◌&&◌, Option, none, some, String, List, ℕ, ◌+◌, ◌*◌, ◌/◌, str_eq,
  if◌then◌else◌, is_empty_text,
}
use decision_center.Json.{Value}

pub data Provider : Type 0 where
  anthropic deepseek : Provider

-- The functions of Python's library that the module uses: `text.strip().lower()`, the number of
-- `text.split()`, `_INJECTION_RE.sub`, the group of `_CODE_FENCE_RE.match`, `splitlines`, `lower`,
-- `line.split(":", 1)[1].strip()`, `replace("_", " ")` and `json.dumps`.
pub record TextTools : Type 0 where
  pub stripped_lower : String → String
  pub count_words : String → ℕ
  pub block_injections : String → String
  pub fence_body : String → Option String
  pub splitlines : String → List String
  pub lower : String → String
  pub after_colon : String → String
  pub with_spaces : String → String
  pub dumps : Value → String

pub record Settings : Type 0 where
  pub llm_provider : Option String
  pub deepseek_api_key : Option String
  pub anthropic_api_key : Option String
  -- `anthropic is not None`
  pub anthropic_installed : Bool
  pub daily_cost_cap : ℕ

pub record Caps : Type 0 where
  pub max_input : ℕ
  pub max_output : ℕ

-- Per million tokens, in cents.
pub record Rates : Type 0 where
  pub per_input : ℕ
  pub per_output : ℕ

abbrev pub light_model : String
light_model = "claude-haiku-4-5"

abbrev pub heavy_model : String
heavy_model = "claude-sonnet-4-6"

abbrev pub deepseek_light_model : String
deepseek_light_model = "deepseek-v4-flash"

abbrev pub deepseek_heavy_model : String
deepseek_heavy_model = "deepseek-v4-pro"

-- bool(text)
abbrev pub is_set : Option String → Bool
is_set none = false
is_set (some text) = not (is_empty_text text)

-- `settings.llm_provider or "anthropic"`
abbrev pub or_anthropic : Option String → String
or_anthropic none = "anthropic"
or_anthropic (some name) = if is_empty_text name then "anthropic" else name

unfoldable pub active_provider : TextTools → Settings → Provider
active_provider tools settings =
    if str_eq (tools.stripped_lower (or_anthropic settings.llm_provider)) "deepseek"
    then deepseek
    else anthropic

-- `_TIER_MODELS.get(tier, tier)` and `_DEEPSEEK_TIER_MODELS.get(tier, _DEEPSEEK_DEFAULT_MODEL)`
unfoldable pub resolve_model : Provider → String → String
resolve_model anthropic tier =
    if str_eq tier "light" then light_model else if str_eq tier "heavy" then heavy_model else tier
resolve_model deepseek tier =
    if str_eq tier "heavy" then deepseek_heavy_model else deepseek_light_model

unfoldable pub resolve_caps : Provider → String → Caps
resolve_caps anthropic tier =
    if str_eq tier "light"
    then record { max_input = 200000; max_output = 10000 }
    else record { max_input = 60000; max_output = 8000 }
resolve_caps deepseek tier =
    if str_eq tier "light"
    then record { max_input = 56000; max_output = 8000 }
    else record { max_input = 56000; max_output = 12000 }

-- `_provider_key_available`
unfoldable pub provider_key_available : Settings → Provider → Bool
provider_key_available settings deepseek = is_set settings.deepseek_api_key
provider_key_available settings anthropic =
    is_set settings.anthropic_api_key && settings.anthropic_installed

-- `sanitize_evidence`, and `sanitize_prompt` alike: the text and whether it was flagged
unfoldable pub sanitize_prompt : TextTools → String → String × Bool
sanitize_prompt tools text =
    if is_empty_text text
    then (text, false)
    else (tools.block_injections text, not (str_eq (tools.block_injections text) text))

-- `strip_code_fences`
unfoldable pub strip_code_fences : TextTools → String → String
strip_code_fences tools text = elim (tools.fence_body text) [ none ↦ text | some body ↦ body ]

-- `_COST_RATES.get(model, ...)`
unfoldable pub cost_rates : String → Rates
cost_rates model =
    if str_eq model light_model
    then record { per_input = 25; per_output = 125 }
    else if str_eq model heavy_model
    then record { per_input = 300; per_output = 1500 }
    else if str_eq model deepseek_light_model
    then record { per_input = 27; per_output = 110 }
    else if str_eq model deepseek_heavy_model
    then record { per_input = 55; per_output = 219 }
    else record { per_input = 300; per_output = 1500 }

-- `_estimate_cost`
unfoldable pub estimate_cost : String → ℕ → ℕ → ℕ
estimate_cost model input_tokens output_tokens =
    input_tokens * (cost_rates model).per_input + output_tokens * (cost_rates model).per_output

-- `_estimate_tokens_from_text`: int(words * 1.3)
unfoldable pub estimate_tokens_from_text : TextTools → String → ℕ
estimate_tokens_from_text tools text = tools.count_words text * 13 / 10
