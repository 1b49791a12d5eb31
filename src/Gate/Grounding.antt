-- ===== src/Gate/Grounding.antt =====
-- Lemmas on `_check_claims` of the quality gate: what it takes as grounded in the evidence.
use decision_center.Base.{
  Bool, true, false, ◌&&◌, Option, none, some, String, List, [], ◌∷◌, ◌++◌, ◌≡◌, refl, arith, All,
  all_of, is_empty, filter_by, contains, if◌then◌else◌, sym, ap, ◌∙◌, Bool-cases, inl, inr,
}
use decision_center.Base.Fallible.{Py, ok, >>=-eq-ok}
use decision_center.Json.{
  Value, Items, Fields, list, nil, cons, text, get, elements, iterate, in_set, text_items,
  text_list, truthy,
}
use decision_center.Gate.{supported, unsupported, ClaimId, ClaimCheck, collect}
use decision_center.Gate.Claims.{invalid_ids, check_cited, check_evidence, check_claim}
use decision_center.Gate.Run.{is_unsupported}

-- A claim cites a non-empty list of ids, and each of them is the id of an evidence item.
pub record Grounded (ids : List String) (fs : Fields) : Type 0 where
  pub items : Items
  pub cited : List String
  pub listed : get "evidence_ids" fs ≡ some (list items)
  pub texts : text_items items ≡ ok cited
  pub some_cited : is_empty cited ≡ false
  pub all_known : all_of (λ e. contains e ids) cited ≡ true

pub is_empty-filter_by-append {ℓ} :
    {A : Type ℓ} (test : A → Bool) (xs ys : List A)
    → is_empty (filter_by test (xs ++ ys))
      ≡ (is_empty (filter_by test xs) && is_empty (filter_by test ys))
unfolding filter_by
is_empty-filter_by-append test [] ys = refl
is_empty-filter_by-append test (x ∷ xs) ys = ground (arith, is_empty-filter_by-append test xs ys)

pub &&-split : (a b : Bool) → (a && b) ≡ true → (a ≡ true) × (b ≡ true)
&&-split a b h = ground arith

-- What no output of a collected loop passes, no output of a step passes.
pub collect_parts {ℓ κ} :
    {A : Type ℓ} {B : Type κ} (test : B → Bool) (f : A → Py (List B)) (xs : List A) {out : List B}
    → collect f xs ≡ ok out
    → is_empty (filter_by test out) ≡ true
    → All (λ x. (ys : List B) × (f x ≡ ok ys) × (is_empty (filter_by test ys) ≡ true)) xs
unfolding collect
collect_parts test f [] h e = tt
collect_parts test f (x ∷ xs) {out} h e =
    let (first, h1, rest1) = >>=-eq-ok (f x) _ h in
    let (rest, h2, h3) = >>=-eq-ok (collect f xs) (λ r. ok (first ++ r)) rest1 in
    let both : is_empty (filter_by test (first ++ rest)) ≡ true = cc (h3, e) in
    let (e1, e2) =
      &&-split (is_empty (filter_by test first)) (is_empty (filter_by test rest))
        (sym (is_empty-filter_by-append test first rest) ∙ both) in
    ((first, h1, e1), collect_parts test f xs h2 e2)

kept_none :
    (known : Bool) (v : Value) (later : List Value)
    → ◌≡◌ {A = Py (List Value)} (ok (if known then later else v ∷ later)) (ok [])
    → (known ≡ true) × (later ≡ [])
kept_none known v later h = ground arith

-- The ids of a list of texts are all valid where none is invalid.
texts_known :
    (ids : List String) (items : Items) {cited : List String}
    → text_items items ≡ ok cited
    → invalid_ids ids (elements items) ≡ ok []
    → all_of (λ e. contains e ids) cited ≡ true
unfolding text_items elements invalid_ids in_set all_of
texts_known ids nil h k = ground (arith, h)
texts_known ids (cons (text s) vs) {cited} h k =
    let (rest, h1, h2) = >>=-eq-ok (text_items vs) (λ r. ok (s ∷ r)) h in
    let (later, k1, k2) = >>=-eq-ok (invalid_ids ids (elements vs)) _ k in
    let (known, none_later) = kept_none (contains s ids) (text s) later k2 in
    ground (arith, h2, known, texts_known ids vs {cited = rest} h1 (k1 ∙ ap ok none_later))
texts_known ids (cons _ vs) h k = cc

no_cited : (items : Items) → truthy (list items) ≡ true → text_items items ≡ ok [] → ⊥
unfolding text_items
no_cited nil t h = cc
no_cited (cons (text s) vs) t h =
    let (rest, h1, h2) = >>=-eq-ok (text_items vs) (λ r. ok (s ∷ r)) h in cc h2
no_cited (cons _ vs) t h = cc

some_cited_of :
    (items : Items) (cited : List String)
    → truthy (list items) ≡ true
    → text_items items ≡ ok cited
    → is_empty cited ≡ false
some_cited_of items [] t h = absurd (no_cited items t h)
some_cited_of items (c ∷ cs) t h = refl

supported_only :
    (bad : List Value) (id : ClaimId) (cited : List String) {out : List ClaimCheck}
    → ◌≡◌ {A = Py (List ClaimCheck)}
        (ok (
          record {
            claim_id = id;
            verdict = if is_empty bad then supported else unsupported;
            evidence_ids = cited;
          }
          ∷ []))
        (ok out)
    → is_empty (filter_by is_unsupported out) ≡ true
    → bad ≡ []
unfolding filter_by
supported_only [] id cited h e = refl
supported_only (b ∷ bs) id cited h e = ground arith

-- A list of ids that the check takes without an `unsupported` grounds its claim.
cited_list :
    (ids : List String) (id : ClaimId) (items : Items) {out : List ClaimCheck}
    → check_cited ids id (list items) ≡ ok out
    → is_empty (filter_by is_unsupported out) ≡ true
    → (cited : List String) × (text_items items ≡ ok cited)
      × (all_of (λ e. contains e ids) cited ≡ true)
unfolding check_cited iterate text_list filter_by
cited_list ids id items h e =
    let (bad, h1, rest1) = >>=-eq-ok (invalid_ids ids (elements items)) _ h in
    let (cited, h2, h3) = >>=-eq-ok (text_items items) _ rest1 in
    (cited, h2, texts_known ids items h2 (h1 ∙ ap ok (supported_only bad id cited h3 e)))

check_cited_list :
    (ids : List String) (id : ClaimId) (eids : Value) {out : List ClaimCheck}
    → check_cited ids id eids ≡ ok out
    → (items : Items) × (eids ≡ list items)
unfolding check_cited text_list
check_cited_list ids id (list items) h = (items, refl)
check_cited_list ids id eids h = ground arith

check_evidence_grounds :
    (ids : List String) (id : ClaimId) (fs : Fields) (eids : Option Value) {out : List ClaimCheck}
    → get "evidence_ids" fs ≡ eids
    → check_evidence ids id eids ≡ ok out
    → is_empty (filter_by is_unsupported out) ≡ true
    → Grounded ids fs
unfolding check_evidence filter_by
check_evidence_grounds ids id fs none found h e = absurd (ground (arith, h, e))
check_evidence_grounds ids id fs (some eids) found h e = elim (Bool-cases (truthy eids)) [
  | inl t ↦
      let checked = rw t at h in
      let (items, same) = check_cited_list ids id eids checked in
      let (cited, texts, known) = cited_list ids id items (rw same at checked) e in
      record {
        items = items;
        cited = cited;
        listed = found ∙ ap some same;
        texts = texts;
        some_cited = some_cited_of items cited (rw same at t) texts;
        all_known = known;
      }
  | inr t ↦ absurd (ground (arith, rw t at h, e))
]

pub check_claim_grounds :
    (ids : List String) (c : ClaimId × Fields) {out : List ClaimCheck}
    → check_claim ids c ≡ ok out
    → is_empty (filter_by is_unsupported out) ≡ true
    → Grounded ids c.1
unfolding check_claim
check_claim_grounds ids (id, fs) h e =
    check_evidence_grounds ids id fs (get "evidence_ids" fs) refl h e
