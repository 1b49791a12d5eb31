-- ===== src/Workflow/Planned.antt =====
-- What the planning nodes and the correction node promise of the model's answer, whatever it is.
use mathlib.Core.List.{append-nil}
use decision_center.Base.{
  Bool, false, ◌||◌, Option, none, some, String, List, [], ◌∷◌, ◌++◌, ℕ, ◌+◌, ◌-◌, ◌≤◌, subst,
  str_eq, leb, if◌then◌else◌, contains, is_empty, ◌≡◌, refl, sym, arith, Bool-cases, inl, inr,
}
use decision_center.Base.Effect.{Returns, bind-Returns, done-injective, pure}
use decision_center.Json.{Value, Fields, get}
use decision_center.Llm.{TextTools, Settings}
use decision_center.Llm.Tracker.{CostTracker}
use decision_center.Llm.Call.{Transport}
use decision_center.Workflow.Plan.{
  Run, intents_of, or_general, raw_intents, remove_first, without_cad, asks_for_cad,
}
use decision_center.Workflow.Correct.{
  Retrieval, Correction, CorrectionStatus, stopped_max_loops, not_needed, charged, max_loops,
  try_retrieval, follow_plan, is_stop, ask_for_plan, self_correct_node,
}

-- How often a name stands in a list.
unfoldable pub times : String → List String → ℕ
times name [] = 0
times name (s ∷ ss) = let later = times name ss in if str_eq s name then 1 + later else later

times-contains : (name : String) (ss : List String) → times name ss ≡ 0 → contains name ss ≡ false
unfolding times contains
times-contains name [] h = refl
times-contains name (s ∷ ss) h = ground (arith, times-contains name ss)

remove_first-contains :
    (name : String) (ss : List String)
    → times name ss ≤ 1
    → contains name (remove_first name ss) ≡ false
unfolding times contains remove_first
remove_first-contains name [] h = refl
remove_first-contains name (s ∷ ss) h =
    ground (arith, remove_first-contains name ss, times-contains name ss)

-- A query that asks for neither drawings nor CAD gets a plan without `cad`, if the model's plan
-- names `cad` at most once.
pub without_cad-contains :
    (lower_query : String) (sources : List String)
    → asks_for_cad lower_query ≡ false
    → times "cad" sources ≤ 1
    → contains "cad" (without_cad lower_query sources) ≡ false
unfolding without_cad
without_cad-contains q sources h once = elim (Bool-cases (contains "cad" sources)) [
  | inl e ↦ rw (e, h) (remove_first-contains "cad" sources once)
  | inr e ↦ rw (e, e) refl
]

-- Whatever the model answers, there is an intent.
pub intents_of-is_empty : (parsed : Option Value) → is_empty (intents_of parsed) ≡ false
unfolding intents_of
intents_of-is_empty none = refl
intents_of-is_empty (some Value.null) = refl
intents_of-is_empty (some (Value.boolean b)) = refl
intents_of-is_empty (some (Value.number n)) = refl
intents_of-is_empty (some (Value.text s)) = refl
intents_of-is_empty (some (Value.list vs)) = refl
intents_of-is_empty (some (Value.dict fs)) = some_intent (raw_intents (get "intents" fs))
  where
    some_intent : (intents : List String) → is_empty (or_general intents) ≡ false
    some_intent [] = refl
    some_intent (i ∷ is) = refl

-- One more loop at most, within the bound, and the evidence that was there stays.
abbrev pub Bounded : Correction → Correction → Type 0
Bounded s t =
    (t.loop_count ≤ max_loops)
    × (t.loop_count ≤ s.loop_count + 1)
    × ((added : List String) × (t.evidence ≡ s.evidence ++ added))

below : (n : ℕ) → leb max_loops n ≡ false → n + 1 ≤ max_loops
below n h = ground arith

follow_plan-Bounded :
    (sources : Retrieval) (has_project : Bool) (plan : Fields) (s : Correction)
    → leb max_loops s.loop_count ≡ false
    → Bounded s (follow_plan sources has_project plan s)
unfolding follow_plan
follow_plan-Bounded sources has_project plan s h =
    elim (Bool-cases (is_stop (get "action" plan) || leb (max_loops - 1) s.loop_count)) [
      | inl e ↦ rw e (below s.loop_count h, omega arith, ([], sym (append-nil s.evidence)))
      | inr e ↦
          rw e (below s.loop_count h, omega arith, (try_retrieval sources has_project plan, refl))
    ]

unchanged :
    (s : Correction) (status : Option CorrectionStatus)
    → s.loop_count ≤ max_loops
    → Bounded s (record s { correction_status = status })
unchanged s status within = (within, omega arith, ([], sym (append-nil s.evidence)))

module _ (tools : TextTools) (settings : Settings) (transport : Transport)
    (loads : String → Option Value) where
  ask_for_plan-Bounded :
      (run : Run) (prompt : String) (sources : Retrieval) (has_project : Bool) (s : Correction)
      (t : CostTracker)
      → leb max_loops s.loop_count ≡ false
      → Returns
          (ask_for_plan tools settings transport loads run prompt sources has_project s)
          t
          (λ s' _. Bounded s s')
  unfolding ask_for_plan pure
  ask_for_plan-Bounded run prompt sources has_project s t h =
      bind-Returns _ _ t (λ _ _. Unit) (λ s' _. Bounded s s') (λ _ _. tt)
        (λ result u _ out e.
          subst (Bounded s) (done-injective e)
            (follow_plan-Bounded sources has_project _ (charged result s) h))

  -- A run of node_11 that returns makes one loop at most, stays within the three loops and drops no
  -- evidence, whatever the model answers and the connectors find.
  pub self_correct_node-Bounded :
      (run : Run) (prompt : String) (sources : Retrieval) (has_project sufficient : Bool)
      (s : Correction) (t : CostTracker)
      → s.loop_count ≤ max_loops
      → Returns
          (self_correct_node tools settings transport loads run prompt sources has_project
            sufficient s)
          t
          (λ s' _. Bounded s s')
  unfolding self_correct_node pure
  self_correct_node-Bounded run prompt sources has_project sufficient s t within out e =
      elim (Bool-cases (leb max_loops s.loop_count)) [
        | inl k ↦
            subst (Bounded s) (done-injective (rw k at e))
              (unchanged s (some stopped_max_loops) within)
        | inr k ↦ elim (Bool-cases sufficient) [
          | inl f ↦
              subst (Bounded s) (done-injective (rw (k, f) at e))
                (unchanged s (some not_needed) within)
          | inr f ↦ ask_for_plan-Bounded run prompt sources has_project s t k out (rw (k, f) at e)
        ]
      ]
