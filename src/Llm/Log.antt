-- ===== src/Llm/Log.antt =====
-- The tables of the tracker against a log of what the calls returned.
use decision_center.Base.{
  Bool, true, false, Option, some, String, List, [], ◌∷◌, ◌++◌, ℕ, suc, ◌+◌, str_eq, if◌then◌else◌,
  ◌≡◌, sym, ◌∙◌, ap, refl, arith, Bool-cases, inl, inr, is_empty_text, eq_iff,
}
use decision_center.Base.Dict.{Dict, lookup, insert, lookup-insert, string_key}
use decision_center.Base.Effect.{Result, done, raised}
use decision_center.Llm.Tracker.{
  LlmExc, Usage, CostTracker, check_reset, zero_if_none, or_unused, add_usage, get_tokens,
  charge_model,
}
use decision_center.Llm.Call.{LlmResult}

-- What a call returned, with the request it was made for.
abbrev pub Entry : Type 0
Entry = String × LlmResult

abbrev pub logged : String → Result LlmExc LlmResult → List Entry
logged rid (done res) = (rid, res) ∷ []
logged rid (raised e) = []

-- The use that the log shows of a request, and the cost and the calls of a model.
unfoldable pub used_by : String → List Entry → Usage → Usage
used_by rid [] usage = usage
used_by rid ((r, res) ∷ log) usage =
    used_by rid log
      (if str_eq r rid then add_usage res.input_tokens res.output_tokens usage else usage)

unfoldable pub spent_on : String → List Entry → ℕ → ℕ
spent_on model [] spent = spent
spent_on model ((r, res) ∷ log) spent =
    spent_on model log (if str_eq res.model model then spent + res.cost_usd else spent)

unfoldable pub calls_of : String → List Entry → ℕ → ℕ
calls_of model [] calls = calls
calls_of model ((r, res) ∷ log) calls =
    calls_of model log (if str_eq res.model model then suc calls else calls)

-- The three tables of a tracker agree with those of an earlier one and the log of the calls since.
pub record Agree (log : List Entry) (t u : CostTracker) : Type 0 where
  pub tokens : (rid : String) → get_tokens rid u ≡ used_by rid log (get_tokens rid t)
  pub costs :
      (model : String)
      → is_empty_text model ≡ false
      → zero_if_none (lookup model u.model_costs)
        ≡ spent_on model log (zero_if_none (lookup model t.model_costs))
  pub calls :
      (model : String)
      → is_empty_text model ≡ false
      → zero_if_none (lookup model u.model_calls)
        ≡ calls_of model log (zero_if_none (lookup model t.model_calls))

or_unused-if :
    (b : Bool) (usage : Usage) (o : Option Usage)
    → or_unused (if b then some usage else o) ≡ (if b then usage else or_unused o)
or_unused-if true usage o = refl
or_unused-if false usage o = refl

zero_if_none-if :
    (b : Bool) (n : ℕ) (o : Option ℕ)
    → zero_if_none (if b then some n else o) ≡ (if b then n else zero_if_none o)
zero_if_none-if true n o = refl
zero_if_none-if false n o = refl

-- A test on two texts lets one stand for the other.
same_text :
    {A : Type 0} (key j : String) (g : String → A) (d : A)
    → (if str_eq key j then g key else d) ≡ (if str_eq key j then g j else d)
same_text key j g d = elim (Bool-cases (str_eq key j)) [
  | inl e ↦ rw ((eq_iff key j).0 e) refl
  | inr e ↦ rw e refl
]

-- Writing f of what a key has, read back under any key.
zero_if_none-insert :
    (key j : String) (f : ℕ → ℕ) (m : Dict String ℕ)
    → zero_if_none (lookup j (insert key (f (zero_if_none (lookup key m))) m))
      ≡ (if str_eq key j then f (zero_if_none (lookup j m)) else zero_if_none (lookup j m))
zero_if_none-insert key j f m =
    ap zero_if_none (lookup-insert key j (f (zero_if_none (lookup key m))) m)
    ∙ zero_if_none-if (str_eq key j) (f (zero_if_none (lookup key m))) (lookup j m)
    ∙ same_text key j (λ k. f (zero_if_none (lookup k m))) (zero_if_none (lookup j m))

pub or_unused-insert :
    (key j : String) (f : Usage → Usage) (m : Dict String Usage)
    → or_unused (lookup j (insert key (f (or_unused (lookup key m))) m))
      ≡ (if str_eq key j then f (or_unused (lookup j m)) else or_unused (lookup j m))
or_unused-insert key j f m =
    ap or_unused (lookup-insert key j (f (or_unused (lookup key m))) m)
    ∙ or_unused-if (str_eq key j) (f (or_unused (lookup key m))) (lookup j m)
    ∙ same_text key j (λ k. f (or_unused (lookup k m))) (or_unused (lookup j m))

-- The reset leaves the three tables alone.
pub check_reset-token_usage :
    (today : String) (t : CostTracker) → (check_reset today t).token_usage ≡ t.token_usage
unfolding check_reset
check_reset-token_usage today t = elim (Bool-cases (str_eq today t.last_reset)) [
  | inl e ↦ rw e refl
  | inr e ↦ rw e refl
]

pub check_reset-model_costs :
    (today : String) (t : CostTracker) → (check_reset today t).model_costs ≡ t.model_costs
unfolding check_reset
check_reset-model_costs today t = elim (Bool-cases (str_eq today t.last_reset)) [
  | inl e ↦ rw e refl
  | inr e ↦ rw e refl
]

pub check_reset-model_calls :
    (today : String) (t : CostTracker) → (check_reset today t).model_calls ≡ t.model_calls
unfolding check_reset
check_reset-model_calls today t = elim (Bool-cases (str_eq today t.last_reset)) [
  | inl e ↦ rw e refl
  | inr e ↦ rw e refl
]

pub check_reset-Agree : (today : String) (t : CostTracker) → Agree [] t (check_reset today t)
unfolding get_tokens used_by spent_on calls_of
check_reset-Agree today t = record {
  tokens = λ rid. ap (λ m. or_unused (lookup rid m)) (check_reset-token_usage today t);
  costs = λ model h. ap (λ m. zero_if_none (lookup model m)) (check_reset-model_costs today t);
  calls = λ model h. ap (λ m. zero_if_none (lookup model m)) (check_reset-model_calls today t);
}

pub charge_model-token_usage :
    (model : String) (cost : ℕ) (t : CostTracker)
    → (charge_model model cost t).token_usage ≡ t.token_usage
unfolding charge_model
charge_model-token_usage model cost t = elim (Bool-cases (is_empty_text model)) [
  | inl e ↦ rw e refl
  | inr e ↦ rw e refl
]

other_text :
    (name model : String)
    → is_empty_text name ≡ true
    → is_empty_text model ≡ false
    → str_eq name model ≡ false
other_text name model e h = elim (Bool-cases (str_eq name model)) [
  | inl k ↦ let same = (eq_iff name model).0 k in ground (arith, same, e, h)
  | inr k ↦ k
]

pub charge_model-model_costs :
    (name model : String) (cost : ℕ) (t : CostTracker)
    → is_empty_text model ≡ false
    → zero_if_none (lookup model (charge_model name cost t).model_costs) ≡ (
        if str_eq name model
        then zero_if_none (lookup model t.model_costs) + cost
        else zero_if_none (lookup model t.model_costs))
unfolding charge_model
charge_model-model_costs name model cost t h = elim (Bool-cases (is_empty_text name)) [
  | inl e ↦ rw (e, other_text name model e h) refl
  | inr e ↦ rw e (zero_if_none-insert name model (λ n. n + cost) t.model_costs)
]

pub charge_model-model_calls :
    (name model : String) (cost : ℕ) (t : CostTracker)
    → is_empty_text model ≡ false
    → zero_if_none (lookup model (charge_model name cost t).model_calls) ≡ (
        if str_eq name model
        then suc (zero_if_none (lookup model t.model_calls))
        else zero_if_none (lookup model t.model_calls))
unfolding charge_model
charge_model-model_calls name model cost t h = elim (Bool-cases (is_empty_text name)) [
  | inl e ↦ rw (e, other_text name model e h) refl
  | inr e ↦ rw e (zero_if_none-insert name model (λ n. suc n) t.model_calls)
]

used_by-append :
    (rid : String) (l m : List Entry) (usage : Usage)
    → used_by rid (l ++ m) usage ≡ used_by rid m (used_by rid l usage)
unfolding used_by
used_by-append rid [] m usage = refl
used_by-append rid ((r, res) ∷ l) m usage = used_by-append rid l m _

spent_on-append :
    (model : String) (l m : List Entry) (spent : ℕ)
    → spent_on model (l ++ m) spent ≡ spent_on model m (spent_on model l spent)
unfolding spent_on
spent_on-append model [] m spent = refl
spent_on-append model ((r, res) ∷ l) m spent = spent_on-append model l m _

calls_of-append :
    (model : String) (l m : List Entry) (calls : ℕ)
    → calls_of model (l ++ m) calls ≡ calls_of model m (calls_of model l calls)
unfolding calls_of
calls_of-append model [] m calls = refl
calls_of-append model ((r, res) ∷ l) m calls = calls_of-append model l m _

-- One log after another.
pub Agree-append :
    (l m : List Entry) (t u v : CostTracker) → Agree l t u → Agree m u v → Agree (l ++ m) t v
Agree-append l m t u v first then_on = record {
  tokens = λ rid.
      then_on.tokens rid
      ∙ ap (used_by rid m) (first.tokens rid)
      ∙ sym (used_by-append rid l m (get_tokens rid t));
  costs = λ model h.
      then_on.costs model h
      ∙ ap (spent_on model m) (first.costs model h)
      ∙ sym (spent_on-append model l m (zero_if_none (lookup model t.model_costs)));
  calls = λ model h.
      then_on.calls model h
      ∙ ap (calls_of model m) (first.calls model h)
      ∙ sym (calls_of-append model l m (zero_if_none (lookup model t.model_calls)));
}
