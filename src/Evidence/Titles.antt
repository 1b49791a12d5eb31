-- ===== src/Evidence/Titles.antt =====
-- Lemmas on the second pass of the deduplication in apps/edr/graph/node_09_normalize.py, by title.
use decision_center.Base.{
  Option, none, some, String, List, [], ◌∷◌, ◌≡◌, refl, ap, ◌∙◌, Bool-cases, inl, inr,
}
use decision_center.Evidence.{Item, title_key, title_pass, title_step, was_seen}

-- The items of a list that a pass keeps, in their order.
pub data Part {ℓ} {A : Type ℓ} : List A → List A → Type ℓ where
  no_items : Part [] []
  keep : {x : A} {xs ys : List A} → Part xs ys → Part (x ∷ xs) (x ∷ ys)
  drop : {x : A} {xs ys : List A} → Part xs ys → Part xs (x ∷ ys)

module _ (strip lower : String → String) where
  step-twice :
      (seen : List (String × String)) (item : Item) (k : Option String)
      (later : List (String × String) → List Item)
      → ((s : List (String × String)) → title_pass strip lower s (later s) ≡ later s)
      → title_key strip lower item ≡ k
      → title_pass strip lower seen (title_step strip lower seen item k later)
        ≡ title_step strip lower seen item k later
  unfolding title_pass title_step
  step-twice seen item none later h e =
      ap (λ k. title_step strip lower seen item k (λ s. title_pass strip lower s (later seen))) e
      ∙ ap (λ x. item ∷ x) (h seen)
  step-twice seen item (some title) later h e =
      elim (Bool-cases (was_seen (item.source_type, title) seen)) [
        | inl old ↦ rw old (h seen)
        | inr new ↦
            let k : String × String = (item.source_type, title) in
            let again =
              ap
                (λ o.
                  title_step strip lower seen item o
                    (λ s. title_pass strip lower s (later (k ∷ seen))))
                e in
            rw new (again ∙ rw new (ap (λ x. item ∷ x) (h (k ∷ seen))))
      ]

  pub title_pass-twice :
      (seen : List (String × String)) (items : List Item)
      → title_pass strip lower seen (title_pass strip lower seen items)
        ≡ title_pass strip lower seen items
  unfolding title_pass
  title_pass-twice seen [] = refl
  title_pass-twice seen (item ∷ items) =
      step-twice seen item (title_key strip lower item) (λ s. title_pass strip lower s items)
        (λ s. title_pass-twice s items) refl

  step-Part :
      (seen : List (String × String)) (item : Item) (k : Option String) (items : List Item)
      (later : List (String × String) → List Item)
      → ((s : List (String × String)) → Part (later s) items)
      → Part (title_step strip lower seen item k later) (item ∷ items)
  unfolding title_step
  step-Part seen item none items later h = keep (h seen)
  step-Part seen item (some title) items later h =
      elim (Bool-cases (was_seen (item.source_type, title) seen)) [
        | inl old ↦ rw old (drop (h seen))
        | inr new ↦ rw new (keep (h ((item.source_type, title) ∷ seen)))
      ]

  pub title_pass-Part :
      (seen : List (String × String)) (items : List Item)
      → Part (title_pass strip lower seen items) items
  unfolding title_pass
  title_pass-Part seen [] = no_items
  title_pass-Part seen (item ∷ items) =
      step-Part seen item (title_key strip lower item) items (λ s. title_pass strip lower s items)
        (λ s. title_pass-Part s items)
