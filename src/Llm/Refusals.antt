-- ===== src/Llm/Refusals.antt =====
-- The calls of `call_llm` that raise: why, and what they leave in the tracker.
use decision_center.Base.{
  true, ℕ, ◌+◌, ◌≤◌, ◌<◌, leb, ltb, ◌≡◌, ◌⊎◌, refl, sym, leb→le, ltb→lt, arith, Bool-cases, inl,
  inr,
}
use decision_center.Base.Effect.{Result, done, raised, pure, modify, ◌>>=◌}
use decision_center.Llm.{TextTools, Settings, provider_key_available}
use decision_center.Llm.Tracker.{
  LlmExc, cost_cap_exceeded, token_cap_exceeded, CostTracker, Exec, check_reset,
}
use decision_center.Llm.Call.{
  LlmResult, LlmRequest, Answer, provider, caps_of, est_input_tokens, est_cost, bill,
  fallback_answer, fallback_result, without_fence, provider_result, answer_call, call_llm,
}
use decision_center.Llm.Guardrails.{refuse_or, guard, call_llm-guard, Served, replies}

raised-injective :
    {A : Type 0} {e f : LlmExc} → Path (Result LlmExc A) (raised e) (raised f) → e ≡ f
raised-injective h = cc

raised-done : {A : Type 0} {e : LlmExc} {a : A} → Path (Result LlmExc A) (raised e) (done a) → ⊥
raised-done h = cc

module _ (tools : TextTools) (settings : Settings) where
  -- Why a call raises when the given amount is spent: the day's cap, the cap on the prompt, or the
  -- provider that was asked.
  abbrev pub Reason : Served → ℕ → LlmExc → Type 0
  Reason c spent e =
      ((e ≡ cost_cap_exceeded)
        × (settings.daily_cost_cap ≤ spent + est_cost tools settings c.request))
      ⊎ (((e ≡ token_cap_exceeded)
            × (caps_of tools settings c.request).max_input
              < est_input_tokens tools settings c.request)
          ⊎ ((provider_key_available settings (provider tools settings) ≡ true)
              × (c.reply ≡ raised e)))

  -- An outcome that raises has one of the given reasons and leaves the given tracker.
  abbrev RaisesBy : (LlmExc → Type 0) → CostTracker → Result LlmExc LlmResult × CostTracker → Type 0
  RaisesBy P u outcome = (e : LlmExc) → outcome.0 ≡ raised e → P e × (outcome.1 ≡ u)

  bill-RaisesBy :
      (P : LlmExc → Type 0) (r : LlmRequest) (a : Answer) (v u : CostTracker)
      → RaisesBy P u (bill tools settings r a v)
  unfolding bill modify pure ◌>>=◌
  bill-RaisesBy P r a v u e h = cc

  provider_result-RaisesBy :
      (r : LlmRequest) (reply : Result LlmExc Answer) (u : CostTracker)
      → RaisesBy
          (λ e. reply ≡ raised e)
          u
          (provider_result tools settings (λ _ _ _ _ t. (reply, t)) r u)
  unfolding provider_result ◌>>=◌
  provider_result-RaisesBy r (raised x) u e h = (cc, refl)
  provider_result-RaisesBy r (done a) u e h =
      bill-RaisesBy (λ x. Path (Result LlmExc Answer) (done a) (raised x)) r
        (without_fence tools settings r a) u u e h

  answer_call-RaisesBy :
      (c : Served) (u : CostTracker)
      → RaisesBy
          (λ e.
            (provider_key_available settings (provider tools settings) ≡ true)
            × (c.reply ≡ raised e))
          u
          (answer_call tools settings (replies c) c.request u)
  unfolding answer_call fallback_result
  answer_call-RaisesBy c u e h =
      elim (Bool-cases (provider_key_available settings (provider tools settings))) [
        | inl k ↦
            let (why, same) = provider_result-RaisesBy c.request c.reply u e (rw k at h) in
            ((k, why), rw k same)
        | inr k ↦
            absurd
              (bill-RaisesBy (λ x. ⊥) c.request (fallback_answer tools settings c.request) u u e
                (rw k at h)).0
      ]

  refuse_or-RaisesBy :
      (c : Served) (u : CostTracker)
      → RaisesBy (Reason c u.daily_cost) u (
          refuse_or
            (guard tools settings c.request u.daily_cost)
            (answer_call tools settings (replies c) c.request)
            u)
  unfolding guard
  refuse_or-RaisesBy c u e h =
      elim (Bool-cases
        (leb settings.daily_cost_cap (u.daily_cost + est_cost tools settings c.request))) [
          | inl k ↦ (inl (sym (raised-injective (rw k at h)), leb→le _ _ k), rw k refl)
          | inr k ↦
              elim (Bool-cases (
                ltb (caps_of tools settings c.request).max_input
                  (est_input_tokens tools settings c.request))) [
                    | inl l ↦ (
                      inr (inl (sym (raised-injective (rw (k, l) at h)), ltb→lt _ _ l)),
                      rw (k, l) refl,
                    )
                    | inr l ↦
                        let (why, same) = answer_call-RaisesBy c u e (rw (k, l) at h) in
                        (inr (inr why), rw (k, l) same)
                  ]
        ]

  -- The call is within both caps when the given amount is spent.
  abbrev pub InCaps : LlmRequest → ℕ → Type 0
  InCaps r spent =
      (spent + est_cost tools settings r < settings.daily_cost_cap)
      × (est_input_tokens tools settings r ≤ (caps_of tools settings r).max_input)

  refuse_or-InCaps :
      (r : LlmRequest) (answer : Exec LlmResult) (u : CostTracker) (result : LlmResult)
      → (refuse_or (guard tools settings r u.daily_cost) answer u).0 ≡ done result
      → InCaps r u.daily_cost
  unfolding guard
  refuse_or-InCaps r answer u result h =
      elim (Bool-cases (leb settings.daily_cost_cap (u.daily_cost + est_cost tools settings r))) [
        | inl k ↦ absurd (raised-done (rw k at h))
        | inr k ↦
            elim (Bool-cases
              (ltb (caps_of tools settings r).max_input (est_input_tokens tools settings r))) [
                | inl l ↦ absurd (raised-done (rw (k, l) at h))
                | inr l ↦ (ground (arith, k), ground (arith, l))
              ]
      ]

  -- What an outcome says of the call, where `u` is the tracker that its tests read.
  abbrev pub Justified : Served → CostTracker → Result LlmExc LlmResult × CostTracker → Type 0
  Justified c u (raised e, v) = Reason c u.daily_cost e × (v ≡ u)
  Justified c u (done result, v) = InCaps c.request u.daily_cost

  RaisesBy-Justified :
      (c : Served) (u : CostTracker) (outcome : Result LlmExc LlmResult × CostTracker)
      → RaisesBy (Reason c u.daily_cost) u outcome
      → ((result : LlmResult) → outcome.0 ≡ done result → InCaps c.request u.daily_cost)
      → Justified c u outcome
  RaisesBy-Justified c u (raised e, v) why within = why e refl
  RaisesBy-Justified c u (done result, v) why within = within result refl

  -- A call that raises does so because its estimate brings the day's cost to the cap, because its
  -- prompt has more tokens than the tier's cap, or because the provider raised; and it is charged
  -- nothing: of the tracker only the reset on a new day is left. A call that is answered was within
  -- both caps.
  pub call_llm-Justified :
      (c : Served) (t : CostTracker)
      → Justified c
          (check_reset c.request.begun_on t)
          (call_llm tools settings (replies c) c.request t)
  call_llm-Justified c t =
      let u = check_reset c.request.begun_on t in
      rw (call_llm-guard tools settings (replies c) c.request t) (
        RaisesBy-Justified c u _ (refuse_or-RaisesBy c u)
          (refuse_or-InCaps c.request (answer_call tools settings (replies c) c.request) u))
