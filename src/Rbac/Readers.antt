-- ===== src/Rbac/Readers.antt =====
-- Who passes the read checks, described without their order.
use decision_center.Base.{
  Bool, true, false, Option, none, some, String, List, [], ◌∷◌, sym, Option-cases, ◌||◌, ◌≡◌, ◌≢◌,
  refl, arith, str_eq, if◌then◌else◌, is_empty_text, ◌↔◌, ◌⊎◌, inl, inr, Bool-cases, eq_iff,
}
use decision_center.Rbac.{
  Role, executive, project_manager, finance, commercial, document_control, procurement, legal,
  auditor, admin, role_permissions, role_of, find_role, all_roles, role_value,
}
use decision_center.Rbac.Reviewer.{JwtClaims, Checked, allowed, http, validated_role, is_auditor}
use decision_center.Rbac.Access.{
  names_auditor, views_all, parsed_role, owner_or_reader, known_reader, check_can_read_own_report,
  check_can_read_report_job, can_review_report, content_reader, check_can_read_report_content,
}

-- The three roles that read every report.
abbrev pub ReadsAll : Option String → Type 0
ReadsAll none = ⊥
ReadsAll (some text) = (text ≡ "executive") ⊎ ((text ≡ "admin") ⊎ (text ≡ "auditor"))

find_role-value :
    (rs : List Role) (text : String) (r : Role) → find_role rs text ≡ some r → role_value r ≡ text
unfolding find_role
find_role-value [] text r h = cc
find_role-value (x ∷ rs) text r h = elim (Bool-cases (str_eq (role_value x) text)) [
  | inl e ↦ ground (arith, (eq_iff (role_value x) text).0 e, h)
  | inr e ↦ find_role-value rs text r (rw e at h)
]

role_of-value : (text : String) (r : Role) → role_of text ≡ some r → role_value r ≡ text
unfolding role_of
role_of-value text r h = find_role-value all_roles text r h

viewer_name :
    (text : String) (r : Role)
    → role_value r ≡ text
    → (role_permissions r).can_view_all_reports ≡ true
    → ReadsAll (some text)
unfolding role_permissions
viewer_name text executive e h = inl (sym e)
viewer_name text admin e h = inr (inl (sym e))
viewer_name text auditor e h = inr (inr (sym e))
viewer_name text project_manager e h = cc
viewer_name text finance e h = cc
viewer_name text commercial e h = cc
viewer_name text document_control e h = cc
viewer_name text procurement e h = cc
viewer_name text legal e h = cc

-- A role that reads every report, by the test of the role.
pub role_of-ReadsAll :
    (text : String) (r : Role)
    → role_of text ≡ some r
    → (is_auditor r || (role_permissions r).can_view_all_reports) ≡ true
    → ReadsAll (some text)
role_of-ReadsAll text auditor e h = inr (inr (sym (role_of-value text auditor e)))
role_of-ReadsAll text r e h = viewer_name text r (role_of-value text r e) h

views_all-ReadsAll : (o : Option String) → views_all (parsed_role o) ≡ true → ReadsAll o
unfolding parsed_role
views_all-ReadsAll none h = cc
views_all-ReadsAll (some text) h = elim (Option-cases (role_of text)) [
  | inl e ↦ cc
  | inr (r, e) ↦ viewer_name text r (role_of-value text r e) (rw e at h)
]

abbrev reads_by_name : Option String → Bool
reads_by_name o = names_auditor o || views_all (parsed_role o)

ReadsAll-passes : (o : Option String) → ReadsAll o → reads_by_name o ≡ true
unfolding parsed_role role_of find_role role_permissions
ReadsAll-passes none h = absurd h
ReadsAll-passes (some text) (inl e) = rw e refl
ReadsAll-passes (some text) (inr (inl e)) = rw e refl
ReadsAll-passes (some text) (inr (inr e)) = rw e refl

auditor_name : (o : Option String) → names_auditor o ≡ true → ReadsAll o
auditor_name none h = cc
auditor_name (some text) h = inr (inr ((eq_iff text "auditor").0 h))

passes-ReadsAll : (o : Option String) → reads_by_name o ≡ true → ReadsAll o
passes-ReadsAll o h = elim (Bool-cases (names_auditor o)) [
  | inl e ↦ auditor_name o e
  | inr e ↦ views_all-ReadsAll o (rw e at h)
]

-- A caller whom the rule lets read a report: known, and reader of all reports or its requester.
abbrev pub MayRead : (String → String) → Option JwtClaims → String → Type 0
MayRead hash none owner = ⊥
MayRead hash (some claims) owner =
    (claims.user_id ≢ "") × (ReadsAll claims.role ⊎ (hash claims.user_id ≡ owner))

nonempty : (text : String) → is_empty_text text ≡ false → text ≢ ""
nonempty text e q = let same = (eq_iff text "").1 q in cc

abbrev let_in : Checked {0} Unit
let_in = allowed tt

last_test :
    (a b c : Bool)
    → (if a then allowed tt else if b then allowed tt else if c then allowed tt else http 403)
      ≡ let_in
    → (a || b) ≡ false
    → c ≡ true
last_test true b c h k = cc
last_test false true c h k = cc
last_test false false true h k = refl
last_test false false false h k = cc

module _ (hash_user_id : String → String) where
  passes-MayRead :
      (claims : JwtClaims) (owner : String)
      → is_empty_text claims.user_id ≡ false
      → owner_or_reader hash_user_id claims owner ≡ allowed tt
      → MayRead hash_user_id (some claims) owner
  unfolding owner_or_reader
  passes-MayRead claims owner e h = elim (Bool-cases (reads_by_name claims.role)) [
    | inl r ↦ (nonempty claims.user_id e, inl (passes-ReadsAll claims.role r))
    | inr r ↦ (
      nonempty claims.user_id e,
      inr ((eq_iff (hash_user_id claims.user_id) owner).0 (last_test _ _ _ h r)),
    )
  ]

  MayRead-passes :
      (claims : JwtClaims) (owner : String)
      → MayRead hash_user_id (some claims) owner
      → known_reader hash_user_id (some claims) owner ≡ allowed tt
  unfolding owner_or_reader known_reader
  MayRead-passes claims owner (named, inl all) =
      ground (arith, named, eq_iff claims.user_id "", ReadsAll-passes claims.role all)
  MayRead-passes claims owner (named, inr own) =
      ground
        (arith, named, own, eq_iff claims.user_id "", eq_iff (hash_user_id claims.user_id) owner)

  known_reader_iff :
      (caller : Option JwtClaims) (owner : String)
      → (known_reader hash_user_id caller owner ≡ allowed tt) ↔ MayRead hash_user_id caller owner
  unfolding known_reader
  known_reader_iff none owner = (λ h. cc, λ h. absurd h)
  known_reader_iff (some claims) owner = (
    λ h. elim (Bool-cases (is_empty_text claims.user_id)) [
      | inl e ↦ ground (arith, e, h)
      | inr e ↦ passes-MayRead claims owner e (rw e at h)
    ],
    MayRead-passes claims owner,
  )

  -- With the identity provider configured, a caller passes the read check of a report, and that of
  -- a job, exactly when the caller has a user id and either the role is executive, admin or auditor
  -- or the hash of the user id is the row's.
  pub read_checks_iff :
      (caller : Option JwtClaims) (owner : String)
      → ((check_can_read_own_report hash_user_id true caller owner ≡ allowed tt)
          ↔ MayRead hash_user_id caller owner)
        × ((check_can_read_report_job hash_user_id true caller owner ≡ allowed tt)
            ↔ MayRead hash_user_id caller owner)
  unfolding check_can_read_own_report check_can_read_report_job
  read_checks_iff caller owner = (known_reader_iff caller owner, known_reader_iff caller owner)

any_reviewer : (r : Role) → (is_auditor r || (role_permissions r).can_approve) ≡ true
unfolding role_permissions
any_reviewer executive = refl
any_reviewer project_manager = refl
any_reviewer finance = refl
any_reviewer commercial = refl
any_reviewer document_control = refl
any_reviewer procurement = refl
any_reviewer legal = refl
any_reviewer auditor = refl
any_reviewer admin = refl

-- What the content check keeps of the validated role.
abbrev pub role_only : Checked Role → Checked {0} Unit
role_only (http code) = http code
role_only (allowed r) = allowed tt

module _ (hash_user_id : String → String) (entra : Bool) where
  content_reader-role_only :
      (claims : JwtClaims) (owner : String) (c : Checked Role)
      → validated_role claims ≡ c
      → content_reader hash_user_id entra claims owner c ≡ role_only c
  unfolding content_reader can_review_report
  content_reader-role_only claims owner (http code) h = refl
  content_reader-role_only claims owner (allowed r) h = rw h (ground (arith, any_reviewer r))

  -- The check on the content of a report asks for a valid role and no more: it answers as the
  -- validation of the role does, whoever requested the report.
  pub check_can_read_report_content-role_only :
      (claims : JwtClaims) (owner : String)
      → check_can_read_report_content hash_user_id entra claims owner
        ≡ role_only (validated_role claims)
  unfolding check_can_read_report_content
  check_can_read_report_content-role_only claims owner =
      content_reader-role_only claims owner (validated_role claims) refl
