-- ===== src/Coverage/Laws.antt =====
-- Laws of the coverage summary of apps/edr/graph/coverage.py.
use decision_center.Base.{
  Bool, true, String, List, [], ◌∷◌, ◌<◌, ◌≡◌, refl, arith, eq_iff, all_of, ◌&&◌, not, contains,
  contains-filter_by, all_of-contains, ltb, ltb→lt,
}
use decision_center.Base.Dict.{string_key, lookup-insert}
use decision_center.Coverage.{
  Coverage, no_record, set_default, with_defaults, entry_of, summary, project_sources,
  completeness_of, report_section, full, enabled_sources, errors_among, not_attempted_among,
  is_error, is_documented_skip,
}

-- A default changes no entry that is read.
entry_of-set_default :
    (s k : String) (cov : Coverage) → entry_of (set_default s cov) k ≡ entry_of cov k
unfolding set_default entry_of
entry_of-set_default s k cov = ground (arith, eq_iff s k, lookup-insert s k no_record cov)

entry_of-with_defaults :
    (ss : List String) (k : String) (cov : Coverage)
    → entry_of (with_defaults ss cov) k ≡ entry_of cov k
unfolding with_defaults
entry_of-with_defaults [] k cov = refl
entry_of-with_defaults (s ∷ ss) k cov =
    rw (entry_of-with_defaults ss k (set_default s cov)) (entry_of-set_default s k cov)

-- The enabled project sources, by what was recorded.
contains-enabled_sources :
    (s : String) (r : Coverage)
    → contains s (enabled_sources (with_defaults project_sources r))
      ≡ (contains s project_sources && (entry_of r s).enabled)
unfolding enabled_sources
contains-enabled_sources s r =
    rw
      (contains-filter_by s (λ x. (entry_of (with_defaults project_sources r) x).enabled)
        project_sources)
      (rw (entry_of-with_defaults project_sources s r))

&&_assoc : (a b c : Bool) → ((a && b) && c) ≡ (a && b && c)
&&_assoc a b c = ground arith

-- A source is in the list of connector errors exactly if it is an enabled project source that
-- recorded an error, and in the list of those not attempted exactly if it is an enabled project
-- source that was not attempted and recorded neither `blocked` nor `rbac_denied`.
pub summary_lists :
    (s : String) (r : Coverage)
    → (contains s (summary r).connector_errors
        ≡ (contains s project_sources && (entry_of r s).enabled && is_error (entry_of r s).status))
      × (contains s (summary r).not_attempted_sources ≡ (
          contains s project_sources
          && (entry_of r s).enabled
          && (not (entry_of r s).attempted && not (is_documented_skip (entry_of r s).status))))
unfolding errors_among not_attempted_among summary
summary_lists s r =
    let cov = with_defaults project_sources r in
    let same = entry_of-with_defaults project_sources s r in
    let listed = contains-enabled_sources s r in
    (
      rw (contains-filter_by s (λ x. is_error (entry_of cov x).status) (enabled_sources cov))
          (rw (listed, same) (&&_assoc (contains s project_sources) _ _)),
      rw
          (contains-filter_by s
            (λ x.
              not (entry_of cov x).attempted && not (is_documented_skip (entry_of cov x).status))
            (enabled_sources cov))
          (rw (listed, same) (&&_assoc (contains s project_sources) _ _)),
    )

-- The report's table has a row for every project source, in order, with what was recorded for it.
pub report_section_rows :
    (r : Coverage)
    → report_section r
      ≡ record { source = "odoo"; entry = entry_of r "odoo" }
        ∷ record { source = "sharepoint"; entry = entry_of r "sharepoint" }
        ∷ record { source = "email"; entry = entry_of r "email" }
        ∷ []
unfolding report_section summary
report_section_rows r = simp (entry_of-with_defaults)

all_of-completeness_of :
    (cov : Coverage) (ss : List String)
    → completeness_of cov ss ≡ full
    → all_of (λ x. ltb 0 (entry_of cov x).evidence_count) ss ≡ true
unfolding completeness_of
all_of-completeness_of cov [] h = cc
all_of-completeness_of cov (s ∷ ss) h = ground arith

-- If the evidence counts as full, every enabled project source gave at least one item.
completeness_full :
    (s : String) (r : Coverage)
    → (summary r).completeness ≡ full
    → contains s project_sources ≡ true
    → (entry_of r s).enabled ≡ true
    → 0 < (entry_of r s).evidence_count
unfolding summary
completeness_full s r h m e =
    let cov = with_defaults project_sources r in
    let same = entry_of-with_defaults project_sources s r in
    let listed = contains-enabled_sources s r in
    let found =
      all_of-contains s (λ x. ltb 0 (entry_of cov x).evidence_count) (enabled_sources cov)
        (all_of-completeness_of cov (enabled_sources cov) h) (rw (listed, m, e)) in
    ltb→lt 0 (entry_of r s).evidence_count (rw same at found)
