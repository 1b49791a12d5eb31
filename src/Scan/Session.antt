-- ===== src/Scan/Session.antt =====
-- `run_scan_session`, `_overall_state`, `progress`, `_summary`, `init_full_session` and
-- `select_retry_keys` of apps/edr/admin/odoo_scan_session.py.
use decision_center.Base.{
  Bool, true, false, Option, none, some, String, ℕ, List, [], ◌∷◌, ◌++◌, if◌then◌else◌, length,
  filter_by, all_of, any_of, is_empty, not, map, ◌||◌,
}
use decision_center.Base.Dict.{Dict, lookup, insert, string_key}
use decision_center.Scan.{
  Status, pending, running, completed, partial, capped, empty, failed, timeout, unmapped,
  ScanConfig, SourceState, new_state, engine_raised, Service, same_status, one_of,
}
use decision_center.Scan.Source.{scan_one_source}

pub data SessionState : Type 0 where
  s_pending s_running s_completed s_partial s_failed : SessionState

-- `ScanSession`, less its ids, times and summary text
pub record Session : Type 0 where
  pub state : SessionState
  pub sources : Dict String SourceState
  pub count_supported : Option Bool

abbrev pub statuses : Dict String SourceState → List Status
statuses m = map (λ e. e.1.status) m

-- `_overall_state`
unfoldable pub overall_of : List Status → SessionState
overall_of ss =
    let considered = filter_by (λ s. not (same_status s unmapped)) ss in
    if any_of (one_of (pending ∷ running ∷ [])) ss
    then s_running
    else if is_empty considered || all_of (one_of (completed ∷ empty ∷ [])) considered
    then s_completed
    else if all_of (one_of (failed ∷ timeout ∷ [])) considered
    then s_failed
    else s_partial

abbrev pub overall_state : Session → SessionState
overall_state session = overall_of (statuses session.sources)

-- `progress`: a bucket of it, and its `done`
unfoldable pub bucket : Status → Session → ℕ
bucket s session = length (filter_by (same_status s) (statuses session.sources))

unfoldable pub done_sources : Session → ℕ
done_sources session =
    length (filter_by (λ s. not (one_of (pending ∷ running ∷ []) s)) (statuses session.sources))

-- The fresh state of a source that is scanned next, with where it was left.
unfoldable pub begun : String → Option SourceState → SourceState
begun key none = new_state key running
begun key (some p) = record (new_state key running) {
  pages_done = p.pages_done;
  next_offset = p.next_offset;
}

-- What a scan leaves, with the safety net of the engine.
abbrev pub caught : String → Option SourceState → SourceState
caught key (some r) = r
caught key none = record (new_state key failed) { error = some engine_raised }

-- What a result tells of `count_supported` while it is not known.
unfoldable pub learned : Option Bool → SourceState → Option Bool
learned (some known) r = some known
learned none r = elim r.total [
  | some total ↦ some true
  | none ↦ if same_status r.status capped then some false else none
]

module _ (cfg : ScanConfig) where
  abbrev pub result_of : Session → String × Service → SourceState
  result_of session (key, service) =
      caught key (scan_one_source cfg service key (lookup key session.sources))

  -- The body of the loop: the session as it is shown while the source is scanned, and after.
  unfoldable pub shown : Session → String → Session
  shown session key = record session {
    sources = insert key (begun key (lookup key session.sources)) session.sources;
  }

  unfoldable pub scan_next : Session → String × Service → Session
  scan_next session (key, service) =
      let r = result_of session (key, service) in
      record session {
        sources = insert key r (shown session key).sources;
        count_supported = learned session.count_supported r;
      }

  -- The loop, with the snapshots that it emits.
  unfoldable pub scan_all : Session → List (String × Service) → Session × List Session
  scan_all session [] = (session, [])
  scan_all session (source ∷ later) =
      let next = scan_next session source in
      let (last, emitted) = scan_all next later in (last, shown session source.0 ∷ next ∷ emitted)

  -- `run_scan_session`
  unfoldable pub run_scan_session : Session → List (String × Service) → Session × List Session
  run_scan_session session sources =
      let started = record session { state = s_running } in
      let (last, emitted) = scan_all started sources in
      let ended = record last { state = overall_state last } in
      (ended, started ∷ emitted ++ (ended ∷ []))

-- `init_full_session` over the keys of the registry
unfoldable pub queue_sources : Dict String SourceState → List String → Dict String SourceState
queue_sources m [] = m
queue_sources m (key ∷ keys) = queue_sources (insert key (new_state key pending) m) keys

unfoldable pub init_full_session : List String → Session
init_full_session keys = record {
  state = s_pending;
  sources = queue_sources [] keys;
  count_supported = none;
}

-- `select_retry_keys`
pub data Mode : Type 0 where
  retry_failed retry_incomplete : Mode

abbrev pub pool : Mode → List Status
pool retry_failed = failed ∷ timeout ∷ []
pool retry_incomplete = failed ∷ timeout ∷ partial ∷ capped ∷ pending ∷ running ∷ []

unfoldable pub select_retry_keys : Mode → Session → List String
select_retry_keys mode session =
    map (λ e. e.0) (filter_by (λ e. one_of (pool mode) e.1.status) session.sources)
