-- ===== src/Review/Rows.antt =====
-- Laws of the audit table: what a state update does to the row of each request.
use decision_center.Base.{
  Option, none, some, String, List, [], ◌∷◌, ◌≡◌, arith, eq_iff, str_eq, if◌then◌else◌,
}
use decision_center.Review.Store.{ReviewState, AuditRow, find_audit, set_review_state}

-- The review state that the table has for a request; `none` without a row.
abbrev pub row_state : Option AuditRow → Option ReviewState
row_state none = none
row_state (some row) = row.review_state

abbrev pub state_of : String → List AuditRow → Option ReviewState
state_of rid rows = row_state (find_audit rid rows)

abbrev pub with_state : ReviewState → Option AuditRow → Option AuditRow
with_state s none = none
with_state s (some row) = some (record row { review_state = some s })

pub find_audit-set_review_state :
    (rid k : String) (s : ReviewState) (rows : List AuditRow)
    → find_audit k (set_review_state rid s rows)
      ≡ (if str_eq rid k then with_state s (find_audit k rows) else find_audit k rows)
unfolding find_audit set_review_state
find_audit-set_review_state rid k s [] = ground arith
find_audit-set_review_state rid k s (row ∷ rows) = ground (
  arith,
  find_audit-set_review_state rid k s rows,
  eq_iff rid k,
  eq_iff row.request_id rid,
  eq_iff row.request_id k,
)
