-- ===== src/Scan/Overall.antt =====
-- The session that `run_scan_session` leaves.
use decision_center.Base.{
  Bool, true, false, Option, none, some, String, List, [], ◌∷◌, ◌≡◌, refl, arith, sym, ap, ◌∙◌, All,
  any_of, contains, ◌⊎◌, inl, inr, Bool-cases, map, str_eq, eq_iff,
}
use decision_center.Base.Dict.{
  Dict, lookup, insert, string_key, insert-twice, insert-Unique, Unique,
}
use decision_center.Scan.{Status, pending, running, ScanConfig, SourceState, Service, one_of}
use decision_center.Scan.Source.{scan_one_source}
use decision_center.Scan.Settled.{Settled, scan_one_source-Settled}
use decision_center.Scan.Session.{
  Session, SessionState, s_pending, s_running, overall_of, statuses, caught, begun, result_of,
  shown, scan_next, scan_all, run_scan_session,
}

caught-Settled :
    (key : String) (o : Option SourceState)
    → ((r : SourceState) → o ≡ some r → (r.key ≡ key) × Settled r)
    → Settled (caught key o)
unfolding any_of
caught-Settled key none h = record {
  done = refl;
  is_complete = refl;
  is_capped = refl;
  has_error = refl;
  is_counted = λ e. cc e;
}
caught-Settled key (some r) h = (h r refl).1

pub result_of-Settled :
    (cfg : ScanConfig) (session : Session) (source : String × Service)
    → Settled (result_of cfg session source)
result_of-Settled cfg session (key, service) =
    caught-Settled key (scan_one_source cfg service key (lookup key session.sources))
      (λ r h. scan_one_source-Settled cfg service key (lookup key session.sources) h)

-- An entry is settled, or its key is still to be scanned.
abbrev pub Entries : List String → Dict String SourceState → Type 0
Entries todo m = All (λ e. (contains e.0 todo ≡ true) ⊎ Settled e.1) m

other_key :
    (key j : String) (later : List String) (s : SourceState)
    → str_eq j key ≡ false
    → (contains j (key ∷ later) ≡ true) ⊎ Settled s
    → (contains j later ≡ true) ⊎ Settled s
unfolding contains
other_key key j later s e (inl m) = inl (ground (arith, m, e, eq_iff j key, eq_iff key j))
other_key key j later s e (inr t) = inr t

drop_key :
    (key : String) (later : List String) (m : Dict String SourceState)
    → lookup key m ≡ none
    → Entries (key ∷ later) m
    → Entries later m
unfolding lookup contains
drop_key key later [] fresh h = tt
drop_key key later ((j, s) ∷ m) fresh (first, rest) = elim (Bool-cases (str_eq j key)) [
  | inl e ↦ cc (rw e at fresh)
  | inr e ↦ (other_key key j later s e first, drop_key key later m (rw e at fresh) rest)
]

insert-Entries :
    (key : String) (later : List String) (r : SourceState) (m : Dict String SourceState)
    → Unique m
    → Entries (key ∷ later) m
    → Settled r
    → Entries later (insert key r m)
unfolding insert Unique
insert-Entries key later r [] u h s = (inr s, tt)
insert-Entries key later r ((j, t) ∷ m) u (first, rest) s = elim (Bool-cases (str_eq j key)) [
  | inl e ↦
      rw e
        (inr s, drop_key key later m (ap (λ x. lookup x m) (sym ((eq_iff j key).0 e)) ∙ u.0) rest)
  | inr e ↦ rw e (other_key key j later t e first, insert-Entries key later r m u.1 rest s)
]

pub scan_all-Entries :
    (cfg : ScanConfig) (session : Session) (sources : List (String × Service))
    → Unique session.sources
    → Entries (map (λ x. x.0) sources) session.sources
    → Entries [] (scan_all cfg session sources).0.sources
unfolding scan_all scan_next shown
scan_all-Entries cfg session [] u h = h
scan_all-Entries cfg session ((key, service) ∷ later) u h =
    let r = result_of cfg session (key, service) in
    let once = insert-twice key (begun key (lookup key session.sources)) r session.sources in
    scan_all-Entries cfg (scan_next cfg session (key, service)) later
      (rw once (insert-Unique key r session.sources u))
      (rw once (
        insert-Entries key (map (λ x. x.0) later) r session.sources u h
          (result_of-Settled cfg session (key, service))))

-- `completed`, `partial` or `failed`
abbrev pub is_over : SessionState → Bool
is_over s_pending = false
is_over s_running = false
is_over _ = true

All-Settled : (m : Dict String SourceState) → Entries [] m → All Settled (map (λ e. e.1) m)
unfolding contains
All-Settled [] h = tt
All-Settled (e ∷ m) (inl m', rest) = cc m'
All-Settled (e ∷ m) (inr s, rest) = (s, All-Settled m rest)

nothing_runs :
    (m : Dict String SourceState)
    → Entries [] m
    → any_of (one_of (pending ∷ running ∷ [])) (statuses m) ≡ false
unfolding any_of contains
nothing_runs [] h = refl
nothing_runs (e ∷ m) (inl m', rest) = cc m'
nothing_runs (e ∷ m) (inr s, rest) = rw s.done (nothing_runs m rest)

over_of :
    (ss : List Status)
    → any_of (one_of (pending ∷ running ∷ [])) ss ≡ false
    → is_over (overall_of ss) ≡ true
unfolding overall_of
over_of ss h = ground (arith, h)

-- A run over a session in which each source is settled or is scanned by the run leaves every source
-- settled, and the session in a final state.
pub run_scan_session-Settled :
    (cfg : ScanConfig) (session : Session) (sources : List (String × Service))
    → Unique session.sources
    → Entries (map (λ x. x.0) sources) session.sources
    → All Settled (map (λ e. e.1) (run_scan_session cfg session sources).0.sources)
      × (is_over (run_scan_session cfg session sources).0.state ≡ true)
unfolding run_scan_session
run_scan_session-Settled cfg session sources u h =
    let started = record session { state = s_running } in
    let left = scan_all-Entries cfg started sources u h in
    let last = (scan_all cfg started sources).0 in
    (
      All-Settled last.sources left,
      over_of (statuses last.sources) (nothing_runs last.sources left),
    )
