-- ===== src/Scan/Settled.antt =====
-- The state that `scan_one_source` leaves of one source.
use decision_center.Base.{
  Bool, true, false, Option, none, some, String, ℕ, ◌∷◌, [], ◌≡◌, refl, arith, suc, ◌+◌, min, ap,
  ltb, ◌==◌, if◌then◌else◌, zero, any_of, ◌&&◌, some-injective, sym, subst, ◌∙◌,
}
use decision_center.Scan.{
  pending, running, completed, partial, capped, empty, failed, timeout, unmapped, ScanConfig,
  SourceState, new_state, Reply, answered, timed_out, raised, Service, same_status, one_of,
}
use decision_center.Scan.Source.{
  Paging, ended, returned, legacy_page, counted, sampled, scan_one_source, scan_mapped, page_loop,
  page_reply, prior_offset, prior_pages,
}

abbrev pub is_some {ℓ} : {A : Type ℓ} → Option A → Bool
is_some none = false
is_some (some _) = true

-- The source is done, and its flags, its error and its count are those of its status.
pub record Settled (s : SourceState) : Type 0 where
  pub done : one_of (pending ∷ running ∷ []) s.status ≡ false
  pub is_complete : s.complete ≡ one_of (completed ∷ empty ∷ []) s.status
  pub is_capped : s.is_capped ≡ same_status capped s.status
  pub has_error : is_some s.error ≡ one_of (failed ∷ timeout ∷ []) s.status
  pub is_counted :
      one_of (completed ∷ partial ∷ capped ∷ empty ∷ []) s.status ≡ true → is_some s.count ≡ true

-- The loop returns early only with an error status.
abbrev stops_well : Paging → Bool
stops_well (ended _ _ _) = true
stops_well (returned s e) = one_of (failed ∷ timeout ∷ []) s

page_reply-stops_well :
    (cfg : ScanConfig) (service : Service) (pages offset : ℕ) (r : Reply ℕ) (f : ℕ → Paging)
    → ((n : ℕ) → stops_well (f n) ≡ true)
    → stops_well (page_reply cfg service pages offset r f) ≡ true
unfolding page_reply any_of
page_reply-stops_well cfg service pages offset timed_out f h = ground arith
page_reply-stops_well cfg service pages offset raised f h = ground arith
page_reply-stops_well cfg service pages offset (answered n) f h = ground (arith, h n)

step-stops_well :
    (runs late : Bool) (pages offset : ℕ) (p : Paging)
    → stops_well p ≡ true
    → stops_well
        (if runs then if late then ended true pages offset else p else ended false pages offset)
      ≡ true
step-stops_well runs late pages offset p h = ground (arith, h)

page_loop-stops_well :
    (cfg : ScanConfig) (service : Service) (fuel target seen pages offset : ℕ)
    → stops_well (page_loop cfg service fuel target seen pages offset) ≡ true
unfolding page_loop
page_loop-stops_well cfg service zero target seen pages offset = refl
page_loop-stops_well cfg service (suc fuel) target seen pages offset =
    step-stops_well (ltb seen target && ltb pages cfg.max_pages) (service.past_deadline pages) pages
      offset
      (page_reply cfg service pages offset (service.reads pages offset)
        (λ n. page_loop cfg service fuel target (seen + n) (suc pages) (offset + cfg.page_size)))
      (page_reply-stops_well cfg service pages offset (service.reads pages offset)
        (λ n. page_loop cfg service fuel target (seen + n) (suc pages) (offset + cfg.page_size))
        (λ n.
          page_loop-stops_well cfg service fuel target (seen + n) (suc pages)
            (offset + cfg.page_size)))

sampled-Settled :
    (cfg : ScanConfig) (service : Service) (key : String) (total before : ℕ) (p : Paging)
    → stops_well p ≡ true
    → Settled
        (sampled cfg service (record (new_state key running) { total = some total }) total before p)
unfolding sampled any_of
sampled-Settled cfg service key total before (returned s e) h = record {
  done = ground (arith, h);
  is_complete = ground (arith, h);
  is_capped = ground (arith, h);
  has_error = ground (arith, h);
  is_counted = ground (arith, h);
}
sampled-Settled cfg service key total before (ended broke p o) h = record {
  done = ground arith;
  is_complete = ground arith;
  is_capped = ground arith;
  has_error = ground arith;
  is_counted = λ _. refl;
}

legacy_page-Settled :
    (cfg : ScanConfig) (service : Service) (key : String) (r : Reply ℕ)
    → Settled (legacy_page cfg service (new_state key running) r)
unfolding legacy_page any_of
legacy_page-Settled cfg service key r = record {
  done = ground arith;
  is_complete = ground arith;
  is_capped = ground arith;
  has_error = ground arith;
  is_counted = ground arith;
}

if-Settled : (b : Bool) {x y : SourceState} → Settled x → Settled y → Settled (if b then x else y)
if-Settled true sx sy = sx
if-Settled false sx sy = sy

unmapped-Settled : (key : String) → Settled (new_state key unmapped)
unfolding any_of
unmapped-Settled key = record {
  done = refl;
  is_complete = refl;
  is_capped = refl;
  has_error = refl;
  is_counted = λ h. cc h;
}

counted-Settled :
    (cfg : ScanConfig) (service : Service) (key : String) (prior : Option SourceState)
    (r : Reply (Option ℕ))
    → Settled (counted cfg service (new_state key running) prior r)
unfolding counted any_of
counted-Settled cfg service key prior timed_out = record {
  done = refl;
  is_complete = refl;
  is_capped = refl;
  has_error = refl;
  is_counted = λ h. cc h;
}
counted-Settled cfg service key prior raised = record {
  done = refl;
  is_complete = refl;
  is_capped = refl;
  has_error = refl;
  is_counted = λ h. cc h;
}
counted-Settled cfg service key prior (answered none) =
    legacy_page-Settled cfg service key (service.reads 0 0)
counted-Settled cfg service key prior (answered (some total)) =
    if-Settled (total == 0)
      (record {
        done = refl;
        is_complete = refl;
        is_capped = refl;
        has_error = refl;
        is_counted = λ _. refl;
      })
      (sampled-Settled cfg service key total (prior_pages cfg service prior) _ (
        page_loop-stops_well cfg service cfg.max_pages (min total cfg.sample_target) 0 0
          (prior_offset cfg service prior)))

counted-key :
    (cfg : ScanConfig) (service : Service) (st : SourceState) (prior : Option SourceState)
    (r : Reply (Option ℕ))
    → (counted cfg service st prior r).key ≡ st.key
unfolding counted legacy_page sampled
counted-key cfg service st prior r = ground arith

scan_mapped-Settled :
    (cfg : ScanConfig) (service : Service) (key : String) (prior : Option SourceState)
    (q : Option Bool) {r : SourceState}
    → scan_mapped cfg service key prior q ≡ some r
    → (r.key ≡ key) × Settled r
unfolding scan_mapped
scan_mapped-Settled cfg service key prior none h = cc
scan_mapped-Settled cfg service key prior (some false) h =
    let same = some-injective h in
    (sym (ap (λ s. s.key) same), subst Settled same (unmapped-Settled key))
scan_mapped-Settled cfg service key prior (some true) h =
    let same = some-injective h in
    (
      sym (ap (λ s. s.key) same)
          ∙ counted-key cfg service (new_state key running) prior service.counts,
      subst Settled same (counted-Settled cfg service key prior service.counts),
    )

-- A scan of a source that returns is about that source, and leaves it settled: done, with the flags,
-- the error and the count that its status asks for.
pub scan_one_source-Settled :
    (cfg : ScanConfig) (service : Service) (key : String) (prior : Option SourceState)
    {r : SourceState}
    → scan_one_source cfg service key prior ≡ some r
    → (r.key ≡ key) × Settled r
unfolding scan_one_source
scan_one_source-Settled cfg service key prior h =
    scan_mapped-Settled cfg service key prior service.query h
