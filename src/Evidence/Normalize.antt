-- ===== src/Evidence/Normalize.antt =====
-- What the node `node_09_normalize` leaves of the evidence.
use decision_center.Base.{
  Option, none, some, String, List, [], ◌∷◌, ◌≡◌, ◌≤◌, refl, ap, ◌∙◌, All, Bool-cases, inl, inr,
  arith, ℕ, some-injective,
}
use decision_center.Base.Dict.{Dict, lookup, insert, lookup-insert, same_refl}
use decision_center.Evidence.{
  Item, names_key, priority, hash_key, better, hash_pass, values, normalize, title_pass,
}
use decision_center.Evidence.Titles.{title_pass-twice, title_pass-Part}
use decision_center.Evidence.Hashes.{Distinct, Distinct-Part, hash_pass-Distinct, hash_pass-fixed}

abbrev nothing_seen : Dict (String × String) Item
nothing_seen = []

All-new : (items : List Item) → All (λ y. lookup (hash_key y) nothing_seen ≡ none) items
unfolding lookup
All-new [] = tt
All-new (x ∷ items) = (refl, All-new items)

module _ (strip lower : String → String) where
  -- Normalised evidence has no two items with the same address and the same hash.
  pub normalize-Distinct : (evidence : List Item) → Distinct (normalize strip lower evidence)
  unfolding normalize
  normalize-Distinct evidence =
      Distinct-Part (title_pass-Part strip lower [] (values (hash_pass [] evidence)))
        (hash_pass-Distinct evidence)

  -- Normalising twice gives what normalising once gives: the second run removes nothing and moves
  -- nothing.
  pub normalize-twice :
      (evidence : List Item)
      → normalize strip lower (normalize strip lower evidence) ≡ normalize strip lower evidence
  unfolding normalize
  normalize-twice evidence =
      let kept = title_pass strip lower [] (values (hash_pass [] evidence)) in
      ap (title_pass strip lower [])
        (hash_pass-fixed nothing_seen kept (normalize-Distinct evidence) (All-new kept))
      ∙ title_pass-twice strip lower [] (values (hash_pass [] evidence))

-- The first pass holds something at least as good under the key.
abbrev Covers : String × String → ℕ → Dict (String × String) Item → Type 0
Covers k n m = (y : Item) × (lookup k m ≡ some y) × (n ≤ priority y)

better-covers :
    (o : Option Item) (item y : Item) → o ≡ some y → priority y ≤ priority (better o item)
unfolding better
better-covers none item y e = cc
better-covers (some v) item y e = let same = some-injective e in rw (← same) (ground arith)

better-item : (o : Option Item) (item : Item) → priority item ≤ priority (better o item)
unfolding better
better-item none item = omega arith
better-item (some v) item = ground arith

insert-Covers :
    (k : String × String) (n : ℕ) (item : Item) (m : Dict (String × String) Item)
    → Covers k n m
    → Covers k n (insert (hash_key item) (better (lookup (hash_key item) m) item) m)
insert-Covers k n item m (y, e, b) =
    let kept = better (lookup (hash_key item) m) item in
    let at = lookup-insert (hash_key item) k kept m in
    elim (Bool-cases (names_key.same (hash_key item) k)) [
      | inl s ↦
          let here : lookup (hash_key item) m ≡ some y =
            ap (λ j. lookup j m) ((names_key.same_iff (hash_key item) k).0 s) ∙ e in
          (
            kept,
            at ∙ rw s refl,
            omega (arith, b, better-covers (lookup (hash_key item) m) item y here),
          )
      | inr d ↦ (y, at ∙ rw d e, b)
    ]

hash_pass-Covers :
    (k : String × String) (n : ℕ) (m : Dict (String × String) Item) (items : List Item)
    → Covers k n m
    → Covers k n (hash_pass m items)
unfolding hash_pass
hash_pass-Covers k n m [] c = c
hash_pass-Covers k n m (item ∷ items) c =
    hash_pass-Covers k n (insert (hash_key item) (better (lookup (hash_key item) m) item) m) items
      (insert-Covers k n item m c)

-- Each item of the evidence leaves, under its address and hash, an item of at least its source's
-- priority in the first pass, whatever was there before.
pub hash_pass-priority :
    (m : Dict (String × String) Item) (items : List Item)
    → All
        (λ x.
          (y : Item) × (lookup (hash_key x) (hash_pass m items) ≡ some y)
          × (priority x ≤ priority y))
        items
unfolding hash_pass
hash_pass-priority m [] = tt
hash_pass-priority m (item ∷ items) =
    let kept = better (lookup (hash_key item) m) item in
    (
      hash_pass-Covers (hash_key item) (priority item) (insert (hash_key item) kept m) items (
        kept,
        lookup-insert (hash_key item) (hash_key item) kept m
            ∙ rw (same_refl names_key (hash_key item)) refl,
        better-item (lookup (hash_key item) m) item,
      ),
      hash_pass-priority (insert (hash_key item) kept m) items,
    )
