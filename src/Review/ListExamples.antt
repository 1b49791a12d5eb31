-- ===== src/Review/ListExamples.antt =====
-- The list of reports of a finance user, over a table with a report of somebody else.
use decision_center.Base.{
  true, Option, none, some, String, List, [], ◌∷◌, refl, All, filter_by, contains, ℕ,
}
use decision_center.Base.Dict.{Dict, lookup}
use decision_center.Rbac.{role_of, find_role, role_permissions}
use decision_center.Rbac.Reviewer.{JwtClaims, require_claims, validated_role, role_from_text}
use decision_center.Review.Store.{ReviewState, final}
use decision_center.Review.Handlers.{in_state, derive_external_state}
use decision_center.Review.Listing.{
  ListedRow, ListQuery, ReportList, state_clause, meets, insert_newest, newest_first, limited,
  list_audits, lookup_name, summarise, list_reports,
}
use decision_center.Review.Listed.{ShownTo, list_reports-ShownTo}

abbrev plain_hash : String → String
plain_hash text = text

abbrev listed : String → String → ReviewState → ℕ → ListedRow
listed rid owner state at = record {
  audit = record {
    request_id = rid;
    user_id_hash = owner;
    quality_gate_status = some "passed";
    review_state = some state;
  };
  project_code = some "P1";
  requires_approval = some true;
  created_at = at;
}

abbrev three_reports : List ListedRow
three_reports =
    listed "r-1" "bob" final 1 ∷ listed "r-2" "alice" final 2 ∷ listed "r-3" "bob" final 3 ∷ []

abbrev finance_user : JwtClaims
finance_user = record { user_id = "bob"; role = some "finance" }

abbrev names : Option (Dict String (Option String))
names = some (("P1", some "Harbour") ∷ [])

-- The newest of the caller's final reports.
abbrev newest_final : ListQuery
newest_final = record {
  state = some "final";
  project_code = none;
  date_from = none;
  date_to = some 5;
  limit = 1;
  offset = 0;
}

abbrev one_page : ReportList
one_page = record {
  reports =
      record {
        request_id = "r-3";
        project_code = some "P1";
        project_name = some "Harbour";
        state = in_state final;
        quality_gate = some "passed";
        requires_approval = true;
      }
      ∷ [];
  total = 2;
  limit = 1;
  offset = 0;
}

list_reports-ShownTo_example :
    All (ShownTo plain_hash true finance_user names three_reports) one_page.reports
unfolding list_reports require_claims validated_role role_from_text role_of find_role
    role_permissions list_audits state_clause contains meets filter_by newest_first insert_newest
    limited summarise lookup_name lookup derive_external_state
list_reports-ShownTo_example =
    list_reports-ShownTo plain_hash true finance_user names three_reports newest_final one_page
      (λ e. cc) refl
