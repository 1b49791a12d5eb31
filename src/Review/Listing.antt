-- ===== src/Review/Listing.antt =====
-- `list_reports` and `get_report` of apps/edr/app.py, with `list_audits` of
-- apps/edr/persistence/postgres_store.py. Times are numbers; the query's excerpt, the time of the
-- last change and the formats that were exported are left out.
use decision_center.Base.{
  Bool, true, false, ◌&&◌, ◌||◌, not, Option, none, some, String, List, [], ◌∷◌, ℕ, zero, suc, leb,
  length, str_eq, contains, filter_by, is_empty_text, if◌then◌else◌, map,
}
use decision_center.Base.Dict.{Dict, lookup, string_key}
use decision_center.Rbac.{Role, role_permissions}
use decision_center.Rbac.Reviewer.{
  JwtClaims, Checked, allowed, http, require_claims, validated_role, is_auditor,
}
use decision_center.Review.Store.{ReviewState, AuditRow}
use decision_center.Review.Handlers.{ExternalState, derive_external_state}
use decision_center.Jobs.Status.{review_text}

-- A row of `audit_log` with the columns that the list reads besides the review's.
pub record ListedRow : Type 0 where
  pub audit : AuditRow
  pub project_code : Option String
  pub requires_approval : Option Bool
  pub created_at : ℕ

-- The arguments of `list_audits` that make its clauses.
pub record ListFilter : Type 0 where
  pub user_id_hash : Option String
  pub state : Option String
  pub project_code : Option String
  pub date_from : Option ℕ
  pub date_to : Option ℕ

-- A column that is NULL satisfies neither `=` nor `<>`.
abbrev pub column_is : Option String → String → Bool
column_is none text = false
column_is (some value) text = str_eq value text

abbrev pub column_is_not : Option String → String → Bool
column_is_not none text = false
column_is_not (some value) text = not (str_eq value text)

abbrev pub column_text : Option ReviewState → Option String
column_text none = none
column_text (some s) = some (review_text s)

abbrev pub review_state_is : AuditRow → String → Bool
review_state_is a = column_is (column_text a.review_state)

abbrev pub stored_states : List String
stored_states = "approved" ∷ "rejected" ∷ "revision_requested" ∷ "final" ∷ "cancelled" ∷ []

-- The clauses of a state; `none` for a state that is not known.
unfoldable pub state_clause : String → Option (AuditRow → Bool)
state_clause state =
    if str_eq state "failed"
    then some (λ a. column_is a.quality_gate_status "failed")
    else if str_eq state "needs_review"
    then some (λ a. column_is a.quality_gate_status "needs_review" && review_state_is a "staging")
    else if contains state stored_states
    then some (λ a. review_state_is a state)
    else if str_eq state "staging"
    then some (λ a. review_state_is a "staging" && column_is_not a.quality_gate_status "failed")
    else none

-- if value is not None: _add(clause, value)
abbrev pub unless_none : {A : Type 0} → Option A → (A → Bool) → Bool
unless_none none clause = true
unless_none (some value) clause = clause value

unfoldable pub meets : ListFilter → (AuditRow → Bool) → ListedRow → Bool
meets f clause r =
    unless_none f.user_id_hash (str_eq r.audit.user_id_hash)
    && unless_none f.project_code (column_is r.project_code)
    && clause r.audit
    && unless_none f.date_from (λ d. leb d r.created_at)
    && unless_none f.date_to (leb r.created_at)

-- ORDER BY created_at DESC
unfoldable pub insert_newest : ListedRow → List ListedRow → List ListedRow
insert_newest r [] = r ∷ []
insert_newest r (x ∷ xs) =
    let rest = insert_newest r xs in if leb x.created_at r.created_at then r ∷ x ∷ xs else x ∷ rest

unfoldable pub newest_first : List ListedRow → List ListedRow
newest_first [] = []
newest_first (r ∷ rs) = insert_newest r (newest_first rs)

-- LIMIT and OFFSET
unfoldable pub limited : ℕ → ℕ → List ListedRow → List ListedRow
limited limit offset [] = []
limited limit (suc offset) (r ∷ rs) = limited limit offset rs
limited zero zero (r ∷ rs) = []
limited (suc limit) zero (r ∷ rs) = r ∷ limited limit 0 rs

abbrev pub page_of : List ListedRow → ℕ → ℕ → List ListedRow × ℕ
page_of rows limit offset = (limited limit offset (newest_first rows), length rows)

abbrev pub clause_of : Option String → Option (AuditRow → Bool)
clause_of none = some (λ a. true)
clause_of (some state) = state_clause state

abbrev pub select :
    ListFilter → ℕ → ℕ → List ListedRow → Option (AuditRow → Bool) → List ListedRow × ℕ
select f limit offset rows none = ([], 0)
select f limit offset rows (some clause) = page_of (filter_by (meets f clause) rows) limit offset

-- `PostgresStore.list_audits`
unfoldable pub list_audits : ListFilter → ℕ → ℕ → List ListedRow → List ListedRow × ℕ
list_audits f limit offset rows = select f limit offset rows (clause_of f.state)

pub record ReportSummary : Type 0 where
  pub request_id : String
  pub project_code : Option String
  pub project_name : Option String
  pub state : ExternalState
  pub quality_gate : Option String
  pub requires_approval : Bool

pub record ReportList : Type 0 where
  pub reports : List ReportSummary
  pub total : ℕ
  pub limit : ℕ
  pub offset : ℕ

-- `_pm.get(code).get("display_name") or code`, and `code` where that raises
abbrev pub name_or_code : String → Option (Option String) → String
name_or_code code (some (some name)) = if is_empty_text name then code else name
name_or_code code _ = code

-- `_lookup_name`: the mapping is the display names by project code, `none` where it did not load
unfoldable pub lookup_name : Option (Dict String (Option String)) → Option String → Option String
lookup_name (some names) (some code) =
    if is_empty_text code then none else some (name_or_code code (lookup code names))
lookup_name _ _ = none

-- bool(value): the column is there, so a NULL is false
abbrev pub set_and_true : Option Bool → Bool
set_and_true none = false
set_and_true (some b) = b

unfoldable pub summarise : Option (Dict String (Option String)) → ListedRow → ReportSummary
summarise names r = record {
  request_id = r.audit.request_id;
  project_code = r.project_code;
  project_name = lookup_name names r.project_code;
  state = derive_external_state r.audit;
  quality_gate = r.audit.quality_gate_status;
  requires_approval = set_and_true r.requires_approval;
}

-- The arguments of the request.
pub record ListQuery : Type 0 where
  pub state : Option String
  pub project_code : Option String
  pub date_from : Option ℕ
  pub date_to : Option ℕ
  pub limit : ℕ
  pub offset : ℕ

module _ (hash_user_id : String → String) where
  -- The requester to whom the list is restricted; `none` for all.
  abbrev pub scope_of_role : JwtClaims → Role → Checked (Option String)
  scope_of_role claims r =
      if is_auditor r || (role_permissions r).can_view_all_reports
      then allowed none
      else if is_empty_text claims.user_id
      then http 401
      else allowed (some (hash_user_id claims.user_id))

  abbrev pub checked_scope : JwtClaims → Checked Role → Checked (Option String)
  checked_scope claims (http code) = http code
  checked_scope claims (allowed r) = scope_of_role claims r

  abbrev pub answer_list :
      Option (Dict String (Option String))
      → ListQuery
      → List ListedRow
      → Checked (Option String)
      → Checked ReportList
  answer_list names q rows (http code) = http code
  answer_list names q rows (allowed scope) =
      let (listed, total) =
        list_audits
          (record {
            user_id_hash = scope;
            state = q.state;
            project_code = q.project_code;
            date_from = q.date_from;
            date_to = q.date_to;
          })
          q.limit q.offset rows in
      allowed (record {
        reports = map (summarise names) listed;
        total = total;
        limit = q.limit;
        offset = q.offset;
      })

  abbrev pub list_for :
      Option (Dict String (Option String))
      → ListQuery
      → List ListedRow
      → Checked JwtClaims
      → Checked ReportList
  list_for names q rows (http code) = http code
  list_for names q rows (allowed claims) =
      answer_list names q rows (checked_scope claims (validated_role claims))

  -- GET /reports, where the store answers
  unfoldable pub list_reports :
      Option (Dict String (Option String))
      → ListQuery
      → List ListedRow
      → Option JwtClaims
      → Checked ReportList
  list_reports names q rows caller = list_for names q rows (require_claims caller)
