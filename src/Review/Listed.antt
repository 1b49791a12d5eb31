-- ===== src/Review/Listed.antt =====
-- What the list of reports shows, and to whom.
use decision_center.Base.{
  Bool, true, false, ◌||◌, Option, none, some, String, List, [], ◌∷◌, subst, ◌≡◌, refl, arith, sym,
  ap, ◌∙◌, ◌≢◌, ℕ, zero, suc, ◌⊎◌, inl, inr, Bool-cases, Option-cases, leb, All, filter_by,
  is_empty_text, str_eq, eq_iff, map,
}
use decision_center.Base.Dict.{Dict}
use decision_center.Rbac.{Role, role_permissions, role_of}
use decision_center.Rbac.Reviewer.{
  JwtClaims, Checked, allowed, http, require_claims, validated_role, role_from_text, is_auditor,
}
use decision_center.Rbac.Access.{check_can_read_own_report}
use decision_center.Rbac.Readers.{ReadsAll, MayRead, role_of-ReadsAll, read_checks_iff}
use decision_center.Review.Store.{AuditRow}
use decision_center.Review.Listing.{
  ListedRow, ListFilter, ListQuery, ReportSummary, ReportList, unless_none, meets, insert_newest,
  newest_first, limited, clause_of, select, list_audits, summarise, checked_scope, answer_list,
  list_reports,
}

allowed-injective : {A : Type 0} {a b : A} → Path (Checked A) (allowed a) (allowed b) → a ≡ b
allowed-injective h = cc

module _ (P : ListedRow → Type 0) where
  insert_newest-All :
      (r : ListedRow) (rs : List ListedRow) → P r → All P rs → All P (insert_newest r rs)
  unfolding insert_newest
  insert_newest-All r [] h hs = (h, tt)
  insert_newest-All r (x ∷ xs) h hs = elim (Bool-cases (leb x.created_at r.created_at)) [
    | inl e ↦ rw e (h, hs)
    | inr e ↦ rw e (hs.0, insert_newest-All r xs h hs.1)
  ]

  pub newest_first-All : (rs : List ListedRow) → All P rs → All P (newest_first rs)
  unfolding newest_first
  newest_first-All [] hs = tt
  newest_first-All (r ∷ rs) hs =
      insert_newest-All r (newest_first rs) hs.0 (newest_first-All rs hs.1)

  pub limited-All :
      (limit offset : ℕ) (rs : List ListedRow) → All P rs → All P (limited limit offset rs)
  unfolding limited
  limited-All limit offset [] hs = tt
  limited-All limit (suc offset) (r ∷ rs) hs = limited-All limit offset rs hs.1
  limited-All zero zero (r ∷ rs) hs = tt
  limited-All (suc limit) zero (r ∷ rs) hs = (hs.0, limited-All limit zero rs hs.1)

module _ (P Q : ListedRow → Type 0) where
  pub filter_by-All :
      (f : ListedRow → Bool) (rs : List ListedRow)
      → ((r : ListedRow) → P r → f r ≡ true → Q r)
      → All P rs
      → All Q (filter_by f rs)
  unfolding filter_by
  filter_by-All f [] k hs = tt
  filter_by-All f (r ∷ rs) k hs = elim (Bool-cases (f r)) [
    | inl e ↦ rw e (k r hs.0 e, filter_by-All f rs k hs.1)
    | inr e ↦ rw e (filter_by-All f rs k hs.1)
  ]

  select-All :
      (f : ListFilter) (limit offset : ℕ) (rows : List ListedRow)
      (clause : Option (AuditRow → Bool))
      → ((r : ListedRow) (c : AuditRow → Bool) → P r → meets f c r ≡ true → Q r)
      → All P rows
      → All Q (select f limit offset rows clause).0
  select-All f limit offset rows none k hs = tt
  select-All f limit offset rows (some c) k hs =
      limited-All Q limit offset (newest_first (filter_by (meets f c) rows)) (
        newest_first-All Q (filter_by (meets f c) rows)
          (filter_by-All (meets f c) rows (λ r h e. k r c h e) hs))

role_from_text-ReadsAll :
    (text : Option String) (r : Role)
    → role_from_text text ≡ allowed r
    → (is_auditor r || (role_permissions r).can_view_all_reports) ≡ true
    → ReadsAll text
unfolding role_from_text
role_from_text-ReadsAll none r h v = cc
role_from_text-ReadsAll (some text) r h v = elim (Bool-cases (is_empty_text text)) [
  | inl e ↦ ground (arith, e, h)
  | inr e ↦ elim (Option-cases (role_of text)) [
    | inl k ↦ cc
    | inr (x, k) ↦ role_of-ReadsAll text r (k ∙ ap some (allowed-injective (rw (e, k) at h))) v
  ]
]

-- The caller passes the read check of the row's report.
abbrev pub MayOpen : (String → String) → Bool → JwtClaims → ListedRow → Type 0
MayOpen hash entra claims r =
    check_can_read_own_report hash entra (some claims) r.audit.user_id_hash ≡ allowed tt

MayRead-MayOpen :
    (hash : String → String) (entra : Bool) (claims : JwtClaims) (r : ListedRow)
    → MayRead hash (some claims) r.audit.user_id_hash
    → MayOpen hash entra claims r
unfolding check_can_read_own_report
MayRead-MayOpen hash true claims r h =
    (read_checks_iff hash (some claims) r.audit.user_id_hash).0.1 h
MayRead-MayOpen hash false claims r h = refl

module _ (hash_user_id : String → String) (entra : Bool) (claims : JwtClaims) where
  -- A scope under which every row that meets the filter may be opened.
  abbrev Covers : Checked (Option String) → Type 0
  Covers (http code) = Unit
  Covers (allowed scope) =
      (r : ListedRow)
      → unless_none scope (str_eq r.audit.user_id_hash) ≡ true
      → MayOpen hash_user_id entra claims r

  checked_scope-Covers :
      (c : Checked Role)
      → claims.user_id ≢ ""
      → validated_role claims ≡ c
      → Covers (checked_scope hash_user_id claims c)
  unfolding validated_role
  checked_scope-Covers (http code) known h = tt
  checked_scope-Covers (allowed x) known h =
      elim (Bool-cases (is_auditor x || (role_permissions x).can_view_all_reports)) [
        | inl e ↦ rw e (λ r same.
            MayRead-MayOpen hash_user_id entra claims r
              (known, inl (role_from_text-ReadsAll claims.role x h e)))
        | inr e ↦ elim (Bool-cases (is_empty_text claims.user_id)) [
          | inl k ↦ rw (e, k) tt
          | inr k ↦
              rw (e, k)
                (λ r same. MayRead-MayOpen hash_user_id entra claims r (
                  known,
                  inr (sym ((eq_iff r.audit.user_id_hash (hash_user_id claims.user_id)).0 same)),
                ))
        ]
      ]

-- The row is one of the table's.
abbrev pub Among : ListedRow → List ListedRow → Type 0
Among r [] = ⊥
Among r (x ∷ xs) = (r ≡ x) ⊎ Among r xs

module _ (P Q : ListedRow → Type 0) where
  All-weaken : ((r : ListedRow) → P r → Q r) → (rs : List ListedRow) → All P rs → All Q rs
  All-weaken k [] hs = tt
  All-weaken k (r ∷ rs) hs = (k r hs.0, All-weaken k rs hs.1)

All-Among : (rows : List ListedRow) → All (λ r. Among r rows) rows
All-Among [] = tt
All-Among (r ∷ rows) = (
  inl refl,
  All-weaken (λ x. Among x rows) (λ x. Among x (r ∷ rows)) (λ x. inr) rows (All-Among rows),
)

meets-scope :
    (f : ListFilter) (clause : AuditRow → Bool) (r : ListedRow)
    → meets f clause r ≡ true
    → unless_none f.user_id_hash (str_eq r.audit.user_id_hash) ≡ true
unfolding meets
meets-scope f clause r h = ground (arith, h)

module _ (hash_user_id : String → String) (entra : Bool) (claims : JwtClaims)
    (names : Option (Dict String (Option String))) (rows : List ListedRow) where
  -- A summary of a row of the table that the caller may open.
  abbrev pub ShownTo : ReportSummary → Type 0
  ShownTo s =
      (r : ListedRow) × (Among r rows
        × (MayOpen hash_user_id entra claims r × (s ≡ summarise names r)))

  map-ShownTo :
      (rs : List ListedRow)
      → All (λ r. Among r rows × MayOpen hash_user_id entra claims r) rs
      → All ShownTo (map (summarise names) rs)
  map-ShownTo [] hs = tt
  map-ShownTo (r ∷ rs) hs = ((r, (hs.0.0, (hs.0.1, refl))), map-ShownTo rs hs.1)

  answer_list-ShownTo :
      (q : ListQuery) (c : Checked (Option String)) (page : ReportList)
      → Covers hash_user_id entra claims c
      → answer_list hash_user_id names q rows c ≡ allowed page
      → All ShownTo page.reports
  unfolding list_audits
  answer_list-ShownTo q (http code) page k h = cc
  answer_list-ShownTo q (allowed scope) page k h =
      subst (λ p. All ShownTo p.reports) (allowed-injective h)
        (map-ShownTo _ (
          select-All (λ r. Among r rows) (λ r. Among r rows × MayOpen hash_user_id entra claims r) _
            q.limit q.offset rows (clause_of q.state)
            (λ r c a met. (a, k r (meets-scope _ c r met))) (All-Among rows)))

  -- Every report that the list shows to a caller with a user id is one of the table's, and the
  -- caller passes the read check of that report, whatever the filters and whatever the role.
  pub list_reports-ShownTo :
      (q : ListQuery) (page : ReportList)
      → claims.user_id ≢ ""
      → list_reports hash_user_id names q rows (some claims) ≡ allowed page
      → All ShownTo page.reports
  unfolding list_reports require_claims
  list_reports-ShownTo q page known h =
      answer_list-ShownTo q (checked_scope hash_user_id claims (validated_role claims)) page
        (checked_scope-Covers hash_user_id entra claims (validated_role claims) known refl) h
