-- ===== src/Review/Queue.antt =====
-- The approval queue of the admin screens: `list_approval_queue` of apps/edr/app.py and of
-- apps/edr/persistence/postgres_store.py. Costs and times are left out.
use decision_center.Base.{
  Bool, true, false, ◌&&◌, not, Option, none, some, String, List, [], ◌∷◌, ℕ, ◌≡◌, refl, arith,
  str_eq, Bool-cases, inl, inr, All, filter_by, map,
}
use decision_center.Rbac.Reviewer.{JwtClaims, Checked, allowed, http, require_admin}
use decision_center.Review.Store.{ReviewState, staging}
use decision_center.Review.Handlers.{
  ExternalState, external_state, derive_external_state, in_approval_queue,
}
use decision_center.Review.Listing.{
  ListedRow, column_is, column_text, review_state_is, unless_none, newest_first, page_of,
}
use decision_center.Review.Listed.{limited-All, newest_first-All, filter_by-All}

-- COALESCE(value, '')
abbrev pub or_empty : Option String → String
or_empty none = ""
or_empty (some value) = value

-- The clauses of the queue.
unfoldable pub is_pending : Option String → ListedRow → Bool
is_pending code r =
    review_state_is r.audit "staging"
    && not (str_eq (or_empty r.audit.quality_gate_status) "failed")
    && unless_none code (column_is r.project_code)

-- `PostgresStore.list_approval_queue`
unfoldable pub queue_page : Option String → ℕ → ℕ → List ListedRow → List ListedRow × ℕ
queue_page code limit offset rows = page_of (filter_by (is_pending code) rows) limit offset

pub record ApprovalQueueItem : Type 0 where
  pub request_id : String
  pub project_code : Option String
  pub review_state : ExternalState
  pub quality_gate_status : Option String
  pub requester_hash : String

pub record ApprovalQueueResponse : Type 0 where
  pub items : List ApprovalQueueItem
  pub total : ℕ
  pub limit : ℕ
  pub offset : ℕ

abbrev pub queue_item : ListedRow → ApprovalQueueItem
queue_item r = record {
  request_id = r.audit.request_id;
  project_code = r.project_code;
  review_state = derive_external_state r.audit;
  quality_gate_status = r.audit.quality_gate_status;
  requester_hash = r.audit.user_id_hash;
}

abbrev pub show_queue :
    Option String → ℕ → ℕ → List ListedRow → Checked JwtClaims → Checked ApprovalQueueResponse
show_queue code limit offset rows (http status) = http status
show_queue code limit offset rows (allowed claims) =
    let (listed, total) = queue_page code limit offset rows in
    allowed
      (record { items = map queue_item listed; total = total; limit = limit; offset = offset })

-- GET /admin/approvals, where the store answers
unfoldable pub list_approval_queue :
    Option String → ℕ → ℕ → List ListedRow → Option JwtClaims → Checked ApprovalQueueResponse
list_approval_queue code limit offset rows caller =
    show_queue code limit offset rows (require_admin caller)

-- A report that an override may decide.
abbrev Decidable : ListedRow → Type 0
Decidable r = in_approval_queue (derive_external_state r.audit) ≡ true

All-Unit : (rows : List ListedRow) → All (λ r. Unit {0}) rows
All-Unit [] = tt
All-Unit (r ∷ rows) = (tt, All-Unit rows)

staged-Decidable :
    (s : Option ReviewState) (gate : Option String)
    → column_is (column_text s) "staging" ≡ true
    → str_eq (or_empty gate) "failed" ≡ false
    → in_approval_queue (external_state s gate) ≡ true
staged-Decidable (some staging) none h f = refl
staged-Decidable (some staging) (some gate) h f = elim (Bool-cases (str_eq gate "needs_review")) [
  | inl e ↦ rw (f, e) refl
  | inr e ↦ rw (f, e) refl
]
staged-Decidable s gate h f = cc

is_pending-Decidable :
    (code : Option String) (r : ListedRow) → is_pending code r ≡ true → Decidable r
unfolding is_pending derive_external_state
is_pending-Decidable code r h =
    staged-Decidable r.audit.review_state r.audit.quality_gate_status (ground (arith, h))
      (ground (arith, h))

-- Every report of the queue is in a state in which an override may decide it.
queue_page-Decidable :
    (code : Option String) (limit offset : ℕ) (rows : List ListedRow)
    → All Decidable (queue_page code limit offset rows).0
unfolding queue_page
queue_page-Decidable code limit offset rows =
    limited-All Decidable limit offset (newest_first (filter_by (is_pending code) rows)) (
      newest_first-All Decidable (filter_by (is_pending code) rows) (
        filter_by-All (λ r. Unit) Decidable (is_pending code) rows
          (λ r _. is_pending-Decidable code r) (All-Unit rows)))
