-- ===== src/Evidence/Hashes.antt =====
-- Lemmas on the first pass of the deduplication in apps/edr/graph/node_09_normalize.py, by address
-- and hash.
use decision_center.Base.{
  Bool, false, Option, none, some, String, List, [], ◌∷◌, ◌++◌, ◌≡◌, refl, ap, sym, ◌∙◌, All,
  Bool-cases, inl, inr, ltb, some-injective,
}
use decision_center.Base.Dict.{Dict, lookup, insert, Unique, insert-Unique, lookup-insert}
use decision_center.Evidence.{Item, names_key, priority, hash_key, better, hash_pass, values}
use decision_center.Evidence.Titles.{Part, no_items, keep, drop}

abbrev pub same_source : Item → Item → Bool
same_source x y = names_key.same (hash_key x) (hash_key y)

-- No two items have the same address and hash.
abbrev pub Distinct : List Item → Type 0
Distinct [] = Unit
Distinct (x ∷ xs) = All (λ y. same_source x y ≡ false) xs × Distinct xs

All-Part : (P : Item → Type 0) {xs ys : List Item} → Part xs ys → All P ys → All P xs
All-Part P no_items h = tt
All-Part P (keep p) h = (h.0, All-Part P p h.1)
All-Part P (drop p) h = All-Part P p h.1

pub Distinct-Part : {xs ys : List Item} → Part xs ys → Distinct ys → Distinct xs
Distinct-Part no_items h = tt
Distinct-Part (keep p) h = (All-Part _ p h.0, Distinct-Part p h.1)
Distinct-Part (drop p) h = Distinct-Part p h.1

-- Each item stands under its own key.
Keyed : Dict (String × String) Item → Type 0
Keyed m = All (λ e. hash_key e.1 ≡ e.0) m

insert-Keyed :
    (item : Item) (m : Dict (String × String) Item) (k : String × String)
    → hash_key item ≡ k
    → Keyed m
    → Keyed (insert k item m)
unfolding insert Keyed
insert-Keyed item [] k e h = (e, tt)
insert-Keyed item ((j, v) ∷ m) k e h = elim (Bool-cases (names_key.same j k)) [
  | inl s ↦ rw s (e ∙ sym ((names_key.same_iff j k).0 s), h.1)
  | inr n ↦ rw n (h.0, insert-Keyed item m k e h.1)
]

lookup-Keyed :
    (m : Dict (String × String) Item) (k : String × String) (v : Item)
    → Keyed m
    → lookup k m ≡ some v
    → hash_key v ≡ k
unfolding lookup Keyed
lookup-Keyed [] k v h e = cc
lookup-Keyed ((j, w) ∷ m) k v h e = elim (Bool-cases (names_key.same j k)) [
  | inl s ↦ ap hash_key (sym (some-injective (rw s at e))) ∙ (h.0 ∙ (names_key.same_iff j k).0 s)
  | inr n ↦ lookup-Keyed m k v h.1 (rw n at e)
]

better-key :
    (o : Option Item) (item : Item)
    → ((v : Item) → o ≡ some v → hash_key v ≡ hash_key item)
    → hash_key (better o item) ≡ hash_key item
unfolding better
better-key none item h = refl
better-key (some v) item h = elim (Bool-cases (ltb (priority v) (priority item))) [
  | inl e ↦ rw e refl
  | inr e ↦ rw e (h v refl)
]

-- A dict of the pass: no key twice, and each item under its own.
abbrev Good : Dict (String × String) Item → Type 0
Good m = Unique m × Keyed m

hash_pass-Good :
    (m : Dict (String × String) Item) (items : List Item) → Good m → Good (hash_pass m items)
unfolding hash_pass
hash_pass-Good m [] g = g
hash_pass-Good m (item ∷ items) (u, h) =
    let kept = better (lookup (hash_key item) m) item in
    let own =
      better-key (lookup (hash_key item) m) item (λ v e. lookup-Keyed m (hash_key item) v h e) in
    hash_pass-Good (insert (hash_key item) kept m) items
      (insert-Unique (hash_key item) kept m u, insert-Keyed kept m (hash_key item) own h)

absent :
    (m : Dict (String × String) Item) (x : Item)
    → lookup (hash_key x) m ≡ none
    → Keyed m
    → All (λ y. same_source x y ≡ false) (values m)
unfolding lookup Keyed
absent [] x e h = tt
absent ((j, v) ∷ m) x e h = elim (Bool-cases (names_key.same j (hash_key x))) [
  | inl s ↦ cc (rw s at e)
  | inr n ↦ (
    elim (Bool-cases (same_source x v)) [
      | inl t ↦ cc (
        (names_key.same_iff j (hash_key x)).1
            (sym h.0 ∙ sym ((names_key.same_iff (hash_key x) (hash_key v)).0 t)),
        n,
      )
      | inr f ↦ f
    ],
    absent m x (rw n at e) h.1,
  )
]

values-Distinct : (m : Dict (String × String) Item) → Good m → Distinct (values m)
unfolding Unique Keyed
values-Distinct [] g = tt
values-Distinct ((j, v) ∷ m) (u, h) =
    (absent m v (ap (λ k. lookup k m) h.0 ∙ u.0) h.1, values-Distinct m (u.1, h.1))

-- What the first pass leaves is distinct.
pub hash_pass-Distinct : (items : List Item) → Distinct (values (hash_pass [] items))
unfolding Unique Keyed
hash_pass-Distinct items = values-Distinct (hash_pass [] items) (hash_pass-Good [] items (tt, tt))

insert-new :
    (k : String × String) (v : Item) (m : Dict (String × String) Item) (later : List Item)
    → lookup k m ≡ none
    → values (insert k v m) ++ later ≡ values m ++ v ∷ later
unfolding insert lookup
insert-new k v [] later e = refl
insert-new k v ((j, w) ∷ m) later e = elim (Bool-cases (names_key.same j k)) [
  | inl s ↦ cc (rw s at e)
  | inr n ↦ rw n (ap (λ x. w ∷ x) (insert-new k v m later (rw n at e)))
]

still_new :
    (x : Item) (m : Dict (String × String) Item) (items : List Item)
    → All (λ y. same_source x y ≡ false) items
    → All (λ y. lookup (hash_key y) m ≡ none) items
    → All (λ y. lookup (hash_key y) (insert (hash_key x) x m) ≡ none) items
still_new x m [] h f = tt
still_new x m (y ∷ items) h f =
    (lookup-insert (hash_key x) (hash_key y) x m ∙ rw (h.0) f.0, still_new x m items h.1 f.1)

append_none : (xs : List Item) → xs ≡ xs ++ []
append_none [] = refl
append_none (x ∷ xs) = ap (λ ys. x ∷ ys) (append_none xs)

-- The first pass keeps distinct items as they are.
pub hash_pass-fixed :
    (m : Dict (String × String) Item) (items : List Item)
    → Distinct items
    → All (λ y. lookup (hash_key y) m ≡ none) items
    → values (hash_pass m items) ≡ values m ++ items
unfolding hash_pass better
hash_pass-fixed m [] d f = append_none (values m)
hash_pass-fixed m (item ∷ items) d f = rw (f.0) (
    hash_pass-fixed (insert (hash_key item) item m) items d.1 (still_new item m items d.0 f.1)
    ∙ insert-new (hash_key item) item m items f.0)
