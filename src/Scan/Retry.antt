-- ===== src/Scan/Retry.antt =====
-- `select_retry_keys` after a run, and the run of a fresh session.
use decision_center.Base.{
  Bool, true, false, String, List, [], ◌∷◌, ◌≡◌, refl, arith, ap, ◌∙◌, All, all_of, any_of,
  filter_by, contains, inl, inr, Bool-cases, map, not, str_eq, eq_iff, is_empty, ◌||◌, eq_refl,
}
use decision_center.Base.Dict.{Dict, insert, Unique, insert-Unique, string_key}
use decision_center.Scan.{
  Status, pending, completed, empty, unmapped, ScanConfig, SourceState, new_state, Service,
  same_status, one_of,
}
use decision_center.Scan.Settled.{Settled}
use decision_center.Scan.Session.{
  Session, s_completed, s_running, scan_all, overall_of, statuses, run_scan_session, queue_sources,
  init_full_session, select_retry_keys, Mode, retry_failed, retry_incomplete, pool,
}
use decision_center.Scan.Overall.{Entries, run_scan_session-Settled, is_over}

-- A source that a completed session need not scan again.
abbrev pub is_fine : Status → Bool
is_fine s = same_status s unmapped || one_of (completed ∷ empty ∷ []) s

considered_fine :
    (ss : List Status)
    → all_of (one_of (completed ∷ empty ∷ [])) (filter_by (λ s. not (same_status s unmapped)) ss)
      ≡ all_of is_fine ss
unfolding all_of filter_by any_of
considered_fine [] = refl
considered_fine (s ∷ ss) = ground (arith, considered_fine ss)

none_considered :
    (ss : List Status)
    → is_empty (filter_by (λ s. not (same_status s unmapped)) ss) ≡ true
    → all_of is_fine ss ≡ true
unfolding all_of filter_by any_of
none_considered [] h = refl
none_considered (s ∷ ss) h = ground (arith, h, none_considered ss)

completed_fine : (ss : List Status) → overall_of ss ≡ s_completed → all_of is_fine ss ≡ true
unfolding overall_of
completed_fine ss h = ground (arith, h, considered_fine ss, none_considered ss)

not_pooled : (mode : Mode) (s : Status) → is_fine s ≡ true → one_of (pool mode) s ≡ false
unfolding any_of
not_pooled retry_failed s h = ground (arith, h)
not_pooled retry_incomplete s h = ground (arith, h)

fine_retry :
    (mode : Mode) (m : Dict String SourceState)
    → all_of is_fine (statuses m) ≡ true
    → filter_by (λ e. one_of (pool mode) e.1.status) m ≡ []
unfolding all_of filter_by any_of
fine_retry mode [] h = refl
fine_retry mode (e ∷ m) h = ground (arith, h, not_pooled mode e.1.status, fine_retry mode m)

-- A run that leaves the session `completed` leaves nothing to retry, in either mode.
pub run_scan_session-select_retry_keys :
    (cfg : ScanConfig) (session : Session) (sources : List (String × Service)) (mode : Mode)
    → (run_scan_session cfg session sources).0.state ≡ s_completed
    → select_retry_keys mode (run_scan_session cfg session sources).0 ≡ []
unfolding select_retry_keys run_scan_session
run_scan_session-select_retry_keys cfg session sources mode h =
    let last = (scan_all cfg (record session { state = s_running }) sources).0 in
    ap (map (λ e. e.0)) (fine_retry mode last.sources (completed_fine (statuses last.sources) h))

queue_sources-Unique :
    (m : Dict String SourceState) (keys : List String) → Unique m → Unique (queue_sources m keys)
unfolding queue_sources
queue_sources-Unique m [] u = u
queue_sources-Unique m (key ∷ keys) u =
    queue_sources-Unique (insert key (new_state key pending) m) keys
      (insert-Unique key (new_state key pending) m u)

insert-queued :
    (key : String) (s : SourceState) (todo : List String) (m : Dict String SourceState)
    → contains key todo ≡ true
    → Entries todo m
    → Entries todo (insert key s m)
unfolding insert
insert-queued key s todo [] q h = (inl q, tt)
insert-queued key s todo ((j, t) ∷ m) q (first, rest) = elim (Bool-cases (str_eq j key)) [
  | inl e ↦ rw e (inl (ap (λ x. contains x todo) ((eq_iff j key).0 e) ∙ q), rest)
  | inr e ↦ rw e (first, insert-queued key s todo m q rest)
]

queue_sources-Entries :
    (todo : List String) (m : Dict String SourceState) (keys : List String)
    → all_of (λ k. contains k todo) keys ≡ true
    → Entries todo m
    → Entries todo (queue_sources m keys)
unfolding queue_sources all_of
queue_sources-Entries todo m [] q h = h
queue_sources-Entries todo m (key ∷ keys) q h =
    queue_sources-Entries todo (insert key (new_state key pending) m) keys (ground (arith, q))
      (insert-queued key (new_state key pending) todo m (ground (arith, q)) h)

contains_all :
    (todo keys : List String)
    → ((k : String) → contains k keys ≡ true → contains k todo ≡ true)
    → all_of (λ k. contains k todo) keys ≡ true
unfolding all_of contains
contains_all todo [] f = refl
contains_all todo (k ∷ ks) f =
    let first : contains k todo ≡ true = f k (ground (arith, eq_refl k)) in
    rw first (contains_all todo ks (λ j m. f j (ground (arith, m))))

-- The scan of a fresh session over all its sources leaves every source settled and the session in a
-- final state, whatever the connector answers.
pub full_scan-Settled :
    (cfg : ScanConfig) (sources : List (String × Service))
    → All Settled (
        map
          (λ e. e.1)
          (run_scan_session cfg (init_full_session (map (λ x. x.0) sources)) sources).0.sources)
      × (is_over (run_scan_session cfg (init_full_session (map (λ x. x.0) sources)) sources).0.state
          ≡ true)
unfolding init_full_session Unique
full_scan-Settled cfg sources =
    let keys = map (λ x. x.0) sources in
    run_scan_session-Settled cfg (init_full_session keys) sources (queue_sources-Unique [] keys tt)
      (queue_sources-Entries keys [] keys (contains_all keys keys (λ k m. m)) tt)
