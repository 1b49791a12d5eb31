-- ===== src/Scan/Examples.antt =====
-- The theorems on the deep scan, on two sources: one that pages and one that times out.
use decision_center.Base.{
  true, false, none, some, String, ℕ, ◌+◌, ◌*◌, ◌≤◌, List, [], ◌∷◌, ◌≡◌, refl, All, map, arith, inl,
  inr,
}
use decision_center.Base.Dict.{Unique, lookup, insert, string_key}
use decision_center.Base.{contains, any_of, filter_by, all_of}
use decision_center.Scan.{
  Status, completed, ScanConfig, SourceState, new_state, answered, timed_out, Service,
}
use decision_center.Scan.Source.{
  scan_one_source, ended, page_loop, page_reply, scan_mapped, counted, sampled,
}
use decision_center.Scan.Pages.{page_loop-fuel, page_loop-bounds}
use decision_center.Scan.Settled.{Settled, scan_one_source-Settled}
use decision_center.Scan.Session.{
  Session, s_completed, s_partial, run_scan_session, init_full_session, select_retry_keys,
  retry_incomplete, scan_all, scan_next, shown, overall_of, learned,
}
use decision_center.Scan.Overall.{Entries, is_over, run_scan_session-Settled}
use decision_center.Scan.Retry.{full_scan-Settled, run_scan_session-select_retry_keys}

abbrev small : ScanConfig
small = record { page_size = 2; sample_target = 3; max_pages = 5 }

-- Seven rows, in pages of two.
abbrev paging : Service
paging = record {
  query = some true;
  counts = answered (some 7);
  reads = λ pages offset. answered 2;
  past_deadline = λ pages. false;
}

abbrev slow : Service
slow = record {
  query = some true;
  counts = timed_out;
  reads = λ pages offset. timed_out;
  past_deadline = λ pages. true;
}

abbrev scanned : SourceState
scanned = record {
  key = "contracts";
  status = completed;
  count = some 7;
  total = some 7;
  is_capped = false;
  complete = true;
  error = none;
  pages_done = 2;
  next_offset = 4;
}

paging_run : scan_one_source small paging "contracts" none ≡ some scanned
unfolding scan_one_source scan_mapped counted sampled page_loop page_reply
paging_run = refl

scan_one_source-Settled_example : (scanned.key ≡ "contracts") × Settled scanned
scan_one_source-Settled_example = scan_one_source-Settled small paging "contracts" none paging_run

page_loop-fuel_example : page_loop small paging 5 3 0 0 0 ≡ page_loop small paging 9 3 0 0 0
page_loop-fuel_example = page_loop-fuel small paging 5 9 3 0 0 0 (omega arith) (omega arith)

paging_loop : page_loop small paging 5 3 0 0 0 ≡ ended false 2 4
unfolding page_loop page_reply
paging_loop = refl

page_loop-bounds_example :
    (k : ℕ) × (2 ≡ 0 + k) × (2 ≤ small.max_pages) × (4 ≡ 0 + k * small.page_size)
page_loop-bounds_example = page_loop-bounds small paging 5 3 0 0 0 (omega arith) paging_loop

abbrev both : List (String × Service)
both = ("contracts", paging) ∷ ("payroll", slow) ∷ []

full_scan-Settled_example :
    All Settled (
      map
        (λ e. e.1)
        (run_scan_session small (init_full_session ("contracts" ∷ "payroll" ∷ [])) both).0.sources)
    × (is_over
          (run_scan_session small (init_full_session ("contracts" ∷ "payroll" ∷ [])) both).0.state
        ≡ true)
full_scan-Settled_example = full_scan-Settled small both

-- A retry of the source that failed.
abbrev half_done : Session
half_done = record {
  state = s_partial;
  sources = ("contracts", scanned) ∷ ("payroll", new_state "payroll" Status.running) ∷ [];
  count_supported = some true;
}

half_done-Entries : Entries ("payroll" ∷ []) half_done.sources
unfolding contains
half_done-Entries =
    (inr (scan_one_source-Settled small paging "contracts" none paging_run).1, (inl refl, tt))

half_done-Unique : Unique half_done.sources
unfolding Unique lookup
half_done-Unique = (refl, (refl, tt))

run_scan_session-Settled_example :
    All Settled
      (map (λ e. e.1) (run_scan_session small half_done (("payroll", slow) ∷ [])).0.sources)
    × (is_over (run_scan_session small half_done (("payroll", slow) ∷ [])).0.state ≡ true)
run_scan_session-Settled_example =
    run_scan_session-Settled small half_done (("payroll", slow) ∷ []) half_done-Unique
      half_done-Entries

paging_session : (run_scan_session small half_done (("payroll", paging) ∷ [])).0.state ≡ s_completed
unfolding run_scan_session scan_all scan_next shown scan_one_source scan_mapped counted sampled
    page_loop page_reply overall_of learned lookup insert any_of all_of filter_by
paging_session = refl

run_scan_session-select_retry_keys_example :
    select_retry_keys retry_incomplete
      (run_scan_session small half_done (("payroll", paging) ∷ [])).0
    ≡ []
run_scan_session-select_retry_keys_example =
    run_scan_session-select_retry_keys small half_done (("payroll", paging) ∷ []) retry_incomplete
      paging_session
