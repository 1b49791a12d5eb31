-- ===== src/Llm/Accounts.antt =====
-- What the tables of the tracker say of the calls that were answered.
use decision_center.Base.{
  Option, none, some, List, [], ◌∷◌, ◌++◌, suc, ◌+◌, str_eq, if◌then◌else◌, ◌∙◌, ap, refl,
  Bool-cases, inl, inr,
}
use decision_center.Base.Dict.{lookup, insert, string_key}
use decision_center.Base.Effect.{Result, done, raised, pure, modify, ◌>>=◌}
use decision_center.Llm.{TextTools, Settings, provider_key_available, estimate_cost}
use decision_center.Llm.Tracker.{
  LlmExc, CostTracker, check_reset, zero_if_none, or_unused, add_usage, get_tokens, add_cost,
  record_cost, record_tokens,
}
use decision_center.Llm.Call.{
  LlmRequest, Answer, provider, model_of, bill, fallback_answer, fallback_result, without_fence,
  provider_result, answer_call, call_llm,
}
use decision_center.Llm.Guardrails.{refuse_or, guard, call_llm-guard, Served, replies, serve_calls}
use decision_center.Llm.Log.{
  Entry, logged, used_by, spent_on, calls_of, Agree, Agree-append, or_unused-insert,
  check_reset-token_usage, check_reset-model_costs, check_reset-model_calls, check_reset-Agree,
  charge_model-token_usage, charge_model-model_costs, charge_model-model_calls,
}

module _ (tools : TextTools) (settings : Settings) where
  bill-Agree :
      (r : LlmRequest) (a : Answer) (t : CostTracker)
      → Agree (logged r.request_id (bill tools settings r a t).0) t (bill tools settings r a t).1
  unfolding bill modify pure ◌>>=◌ record_cost record_tokens get_tokens used_by spent_on calls_of
  bill-Agree r a t =
      let name = model_of tools settings r in
      let cost = estimate_cost name a.billed_input a.billed_output in
      let u = add_cost cost (check_reset r.billed_on t) in
      record {
        tokens = λ rid.
            ap
              (λ m. or_unused (
                lookup rid (
                  insert r.request_id
                    (add_usage a.billed_input a.billed_output (or_unused (lookup r.request_id m)))
                    m)))
              (charge_model-token_usage name cost u ∙ check_reset-token_usage r.billed_on t)
            ∙ or_unused-insert r.request_id rid (add_usage a.billed_input a.billed_output)
                t.token_usage;
        costs = λ model h.
            charge_model-model_costs name model cost u h
            ∙ ap
                (λ m.
                  if str_eq name model
                  then zero_if_none (lookup model m) + cost
                  else zero_if_none (lookup model m))
                (check_reset-model_costs r.billed_on t);
        calls = λ model h.
            charge_model-model_calls name model cost u h
            ∙ ap
                (λ m.
                  if str_eq name model
                  then suc (zero_if_none (lookup model m))
                  else zero_if_none (lookup model m))
                (check_reset-model_calls r.billed_on t);
      }

  reply-Agree :
      (r : LlmRequest) (reply : Result LlmExc Answer) (t : CostTracker)
      → let out = provider_result tools settings (λ _ _ _ _ t. (reply, t)) r t in
        Agree (logged r.request_id out.0) t out.1
  unfolding provider_result ◌>>=◌ get_tokens used_by spent_on calls_of
  reply-Agree r (done a) t = bill-Agree r (without_fence tools settings r a) t
  reply-Agree r (raised e) t = record {
    tokens = λ rid. refl;
    costs = λ model h. refl;
    calls = λ model h. refl;
  }

  answer_call-Agree :
      (c : Served) (t : CostTracker)
      → let out = answer_call tools settings (replies c) c.request t in
        Agree (logged c.request.request_id out.0) t out.1
  unfolding answer_call fallback_result
  answer_call-Agree c t =
      elim (Bool-cases (provider_key_available settings (provider tools settings))) [
        | inl e ↦ rw e (reply-Agree c.request c.reply t)
        | inr e ↦ rw e (bill-Agree c.request (fallback_answer tools settings c.request) t)
      ]

  refuse_or-Agree :
      (o : Option LlmExc) (c : Served) (t : CostTracker)
      → let out = refuse_or o (answer_call tools settings (replies c) c.request) t in
        Agree (logged c.request.request_id out.0) t out.1
  unfolding get_tokens used_by spent_on calls_of
  refuse_or-Agree none c t = answer_call-Agree c t
  refuse_or-Agree (some e) c t = record {
    tokens = λ rid. refl;
    costs = λ model h. refl;
    calls = λ model h. refl;
  }

  call_llm-Agree :
      (c : Served) (t : CostTracker)
      → let out = call_llm tools settings (replies c) c.request t in
        Agree (logged c.request.request_id out.0) t out.1
  call_llm-Agree c t =
      let u = check_reset c.request.begun_on t in
      rw (call_llm-guard tools settings (replies c) c.request t) (
        Agree-append [] _ t u _ (check_reset-Agree c.request.begun_on t)
          (refuse_or-Agree (guard tools settings c.request u.daily_cost) c u))

  -- The log of the calls that returned a result, in their order.
  unfoldable pub log_of : List Served → CostTracker → List Entry
  log_of [] t = []
  log_of (c ∷ cs) t =
      let out = call_llm tools settings (replies c) c.request t in
      logged c.request.request_id out.0 ++ log_of cs out.1

  -- Over every sequence of calls, with any replies, the tracker's tables agree with the log: the
  -- tokens of a request, and the cost and the number of calls of a model with a name, are what they
  -- were and what the results since then add up to; a call that raised adds nothing.
  pub serve_calls-Agree :
      (cs : List Served) (t : CostTracker) → Agree (log_of cs t) t (serve_calls tools settings cs t)
  unfolding log_of serve_calls get_tokens used_by spent_on calls_of
  serve_calls-Agree [] t = record {
    tokens = λ rid. refl;
    costs = λ model h. refl;
    calls = λ model h. refl;
  }
  serve_calls-Agree (c ∷ cs) t =
      Agree-append _ _ t _ _ (call_llm-Agree c t)
        (serve_calls-Agree cs (call_llm tools settings (replies c) c.request t).1)
