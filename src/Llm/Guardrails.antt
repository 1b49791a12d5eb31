-- ===== src/Llm/Guardrails.antt =====
-- The guardrails of `call_llm`, and what they bound over a sequence of calls.
use native.Mathlib.Nat.{le_refl}
use decision_center.Base.{
  Bool, true, false, Option, none, some, String, List, [], ◌∷◌, ℕ, ◌+◌, ◌-◌, ◌≤◌, ◌<◌, max, str_eq,
  leb, ltb, if◌then◌else◌, ◌≡◌, refl, arith, Bool-cases, inl, inr, is_empty_text,
}
use decision_center.Base.Effect.{Result, done, raised, pure, throw, modify, gets, ◌>>=◌}
use decision_center.Llm.{TextTools, Settings, provider_key_available, estimate_cost}
use decision_center.Llm.Tracker.{
  LlmExc, cost_cap_exceeded, token_cap_exceeded, CostTracker, Exec, check_reset, check_budget,
  charge_model, record_cost, record_tokens,
}
use decision_center.Llm.Call.{
  LlmResult, LlmRequest, Answer, Transport, raise_if_over, provider, model_of, caps_of,
  est_input_tokens, est_cost, bill, fallback_answer, fallback_result, without_fence,
  provider_result, answer_call, call_llm,
}

abbrev pub refuse_or : Option LlmExc → Exec LlmResult → Exec LlmResult
refuse_or none m t = m t
refuse_or (some e) m t = (raised e, t)

two_tests :
    (over_cost over_tokens : Bool) (answer : Exec LlmResult) (u : CostTracker)
    → ((if over_cost then throw cost_cap_exceeded else pure tt) >>= λ _.
          (if over_tokens then throw token_cap_exceeded else pure tt) >>= λ _. answer)
        u
      ≡ refuse_or
          (if over_cost
            then some cost_cap_exceeded
            else if over_tokens
            then some token_cap_exceeded
            else none)
          answer
          u
unfolding throw pure ◌>>=◌
two_tests true over_tokens answer u = refl
two_tests false true answer u = refl
two_tests false false answer u = refl

module _ (tools : TextTools) (settings : Settings) where
  -- What refuses a call when the given amount is spent.
  unfoldable pub guard : LlmRequest → ℕ → Option LlmExc
  guard r spent =
      if leb settings.daily_cost_cap (spent + est_cost tools settings r)
      then some cost_cap_exceeded
      else if ltb (caps_of tools settings r).max_input (est_input_tokens tools settings r)
      then some token_cap_exceeded
      else none

  -- `call_llm` by its two tests.
  pub call_llm-guard :
      (transport : Transport) (r : LlmRequest) (t : CostTracker)
      → let u = check_reset r.begun_on t in
        call_llm tools settings transport r t
        ≡ refuse_or (guard r u.daily_cost) (answer_call tools settings transport r) u
  unfolding call_llm check_budget raise_if_over guard pure throw modify gets ◌>>=◌
  call_llm-guard transport r t =
      let u = check_reset r.begun_on t in
      two_tests (leb settings.daily_cost_cap (u.daily_cost + est_cost tools settings r))
        (ltb (caps_of tools settings r).max_input (est_input_tokens tools settings r))
        (answer_call tools settings transport r) u

below : (a b : ℕ) → leb a b ≡ false → b < a
below a b h = ground arith

charge_model-daily_cost :
    (model : String) (cost : ℕ) (t : CostTracker)
    → (charge_model model cost t).daily_cost ≡ t.daily_cost
unfolding charge_model
charge_model-daily_cost model cost t = elim (Bool-cases (is_empty_text model)) [
  | inl e ↦ rw e refl
  | inr e ↦ rw e refl
]

check_reset-daily_cost :
    (today : String) (t : CostTracker) → (check_reset today t).daily_cost ≤ t.daily_cost
unfolding check_reset
check_reset-daily_cost today t = elim (Bool-cases (str_eq today t.last_reset)) [
  | inl e ↦ rw e (le_refl t.daily_cost)
  | inr e ↦ rw e (omega arith)
]

-- One call of a sequence, with what its provider replies.
pub record Served : Type 0 where
  pub request : LlmRequest
  pub reply : Result LlmExc Answer

-- A transport that replies so while no other call runs.
abbrev pub replies : Served → Transport
replies c p model prompt max_tokens t = (c.reply, t)

module _ (tools : TextTools) (settings : Settings) where
  -- The calls one after the other.
  unfoldable pub serve_calls : List Served → CostTracker → CostTracker
  serve_calls [] t = t
  serve_calls (c ∷ cs) t = serve_calls cs (call_llm tools settings (replies c) c.request t).1

  -- What the tokens of an answer cost.
  abbrev pub cost_of : LlmRequest → Answer → ℕ
  cost_of r a = estimate_cost (model_of tools settings r) a.billed_input a.billed_output

  abbrev pub cost_of_reply : LlmRequest → Result LlmExc Answer → ℕ
  cost_of_reply r (raised e) = 0
  cost_of_reply r (done a) = cost_of r a

  -- What a call that is let through costs: the reply's tokens where the provider is asked, the
  -- fallback's where it is not.
  abbrev pub actual_cost : Served → ℕ
  actual_cost c =
      if provider_key_available settings (provider tools settings)
      then cost_of_reply c.request c.reply
      else cost_of c.request (fallback_answer tools settings c.request)

  -- The largest amount by which one of the calls costs more than its estimate.
  unfoldable pub largest_overrun : List Served → ℕ
  largest_overrun [] = 0
  largest_overrun (c ∷ cs) =
      max (actual_cost c - est_cost tools settings c.request) (largest_overrun cs)

  bill-daily_cost :
      (r : LlmRequest) (a : Answer) (u : CostTracker)
      → (bill tools settings r a u).1.daily_cost ≤ u.daily_cost + cost_of r a
  unfolding bill modify pure ◌>>=◌ record_cost record_tokens
  bill-daily_cost r a u =
      rw (charge_model-daily_cost _ _ _) (omega (arith, check_reset-daily_cost r.billed_on u))

  provider_result-daily_cost :
      (r : LlmRequest) (reply : Result LlmExc Answer) (u : CostTracker)
      → (provider_result tools settings (λ _ _ _ _ t. (reply, t)) r u).1.daily_cost
        ≤ u.daily_cost + cost_of_reply r reply
  unfolding provider_result ◌>>=◌
  provider_result-daily_cost r (done a) u = bill-daily_cost r (without_fence tools settings r a) u
  provider_result-daily_cost r (raised e) u = omega arith

  answer_call-daily_cost :
      (c : Served) (u : CostTracker)
      → (answer_call tools settings (replies c) c.request u).1.daily_cost
        ≤ u.daily_cost + actual_cost c
  unfolding answer_call fallback_result
  answer_call-daily_cost c u =
      elim (Bool-cases (provider_key_available settings (provider tools settings))) [
        | inl e ↦ rw e (provider_result-daily_cost c.request c.reply u)
        | inr e ↦ rw e (bill-daily_cost c.request (fallback_answer tools settings c.request) u)
      ]

  refuse_or-under :
      (c : Served) (u : CostTracker) (over : ℕ)
      → actual_cost c ≤ est_cost tools settings c.request + over
      → u.daily_cost < settings.daily_cost_cap + over
      → (refuse_or
          (guard tools settings c.request u.daily_cost)
          (answer_call tools settings (replies c) c.request)
          u).1.daily_cost
        < settings.daily_cost_cap + over
  unfolding guard
  refuse_or-under c u over h under =
      elim (Bool-cases
        (leb settings.daily_cost_cap (u.daily_cost + est_cost tools settings c.request))) [
          | inl e ↦ rw e under
          | inr e ↦
              elim (Bool-cases (
                ltb (caps_of tools settings c.request).max_input
                  (est_input_tokens tools settings c.request))) [
                    | inl k ↦ rw (e, k) under
                    | inr k ↦ rw (e, k) (omega (arith, answer_call-daily_cost c u, h, below _ _ e))
                  ]
        ]

  serve_calls-below :
      (cs : List Served) (t : CostTracker) (over : ℕ)
      → largest_overrun cs ≤ over
      → t.daily_cost < settings.daily_cost_cap + over
      → (serve_calls cs t).daily_cost < settings.daily_cost_cap + over
  unfolding serve_calls largest_overrun
  serve_calls-below [] t over h under = under
  serve_calls-below (c ∷ cs) t over h under = serve_calls-below cs _ over (omega (arith, h)) (
      rw (call_llm-guard tools settings (replies c) c.request t) (
        refuse_or-under c (check_reset c.request.begun_on t) over (omega (arith, h))
          (omega (arith, check_reset-daily_cost c.request.begun_on t))))

  -- Over every sequence of calls that starts below the cap, whatever the days, the tiers and the
  -- replies: the day's cost stays below the cap plus the largest amount by which one of the calls
  -- costs more than its estimate, which is 0 where none does.
  pub serve_calls-daily_cost :
      (cs : List Served) (t : CostTracker)
      → t.daily_cost < settings.daily_cost_cap
      → (serve_calls cs t).daily_cost < settings.daily_cost_cap + largest_overrun cs
  serve_calls-daily_cost cs t under =
      serve_calls-below cs t (largest_overrun cs) (le_refl (largest_overrun cs)) (omega arith)
