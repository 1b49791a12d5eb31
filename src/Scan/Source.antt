-- ===== src/Scan/Source.antt =====
-- `scan_one_source` of apps/edr/admin/odoo_scan_session.py: the exact total, then a bounded sample in
-- pages, or one safe page where the workflow cannot count.
use decision_center.Base.{
  Bool, true, false, Option, none, some, String, ℕ, ◌+◌, zero, suc, min, ltb, leb, ◌==◌,
  if◌then◌else◌, not, ◌&&◌,
}
use decision_center.Scan.{
  Status, running, completed, partial, capped, empty, failed, timeout, unmapped, ScanError,
  count_timed_out, count_raised, read_timed_out, read_raised, ScanConfig, SourceState, new_state,
  Reply, answered, timed_out, raised, Service,
}

-- An early return with a status and an error.
abbrev pub stopped : SourceState → Status → ScanError → SourceState
stopped st s e = record st { status = s; error = some e }

-- The locals of the paging loop; `broke` is none while it runs on, or what an early return says.
pub data Paging : Type 0 where
  ended : (interrupted : Bool) (pages offset : ℕ) → Paging
  returned : Status → ScanError → Paging

module _ (cfg : ScanConfig) (service : Service) where
  -- The single page of a workflow that does not count.
  unfoldable pub legacy_page : SourceState → Reply ℕ → SourceState
  legacy_page st timed_out = stopped st timeout read_timed_out
  legacy_page st raised = stopped st failed read_raised
  legacy_page st (answered n) =
      let read = record st { pages_done = 1; next_offset = cfg.page_size } in
      if n == 0
      then record read { count = some 0; complete = true; status = empty }
      else if leb cfg.page_size n
      then record read { count = some n; complete = false; is_capped = true; status = capped }
      else record read { count = some n; complete = true; status = completed }

  abbrev pub interrupt : Status → ScanError → ℕ → ℕ → Paging
  interrupt s e pages offset = if pages == 0 then returned s e else ended true pages offset

  -- What one page does: leave the loop, or go on with the page and its rows counted.
  unfoldable pub page_reply : ℕ → ℕ → Reply ℕ → (ℕ → Paging) → Paging
  page_reply pages offset timed_out go_on = interrupt timeout read_timed_out pages offset
  page_reply pages offset raised go_on = interrupt failed read_raised pages offset
  page_reply pages offset (answered n) go_on =
      if ltb n cfg.page_size then ended false (suc pages) (offset + cfg.page_size) else go_on n

  -- `while seen < target and pages < cfg.max_pages`, on fuel
  unfoldable pub page_loop : (fuel target seen pages offset : ℕ) → Paging
  page_loop zero target seen pages offset = ended false pages offset
  page_loop (suc fuel) target seen pages offset =
      if ltb seen target && ltb pages cfg.max_pages
      then if service.past_deadline pages
        then ended true pages offset
        else page_reply pages offset (service.reads pages offset)
            (λ n. page_loop fuel target (seen + n) (suc pages) (offset + cfg.page_size))
      else ended false pages offset

  -- What the end of the loop writes.
  unfoldable pub sampled : SourceState → ℕ → ℕ → Paging → SourceState
  sampled st total done_before (returned s e) = record (stopped st s e) {
    total = some total;
    count = some total;
  }
  sampled st total done_before (ended interrupted pages offset) = record st {
    total = some total;
    count = some total;
    pages_done = done_before + pages;
    next_offset = offset;
    complete = not interrupted;
    status = if interrupted then partial else completed;
  }

  abbrev pub prior_offset : Option SourceState → ℕ
  prior_offset none = 0
  prior_offset (some p) = p.next_offset

  abbrev pub prior_pages : Option SourceState → ℕ
  prior_pages none = 0
  prior_pages (some p) = p.pages_done

  -- The scan from the answer of `count_fn` on.
  unfoldable pub counted : SourceState → Option SourceState → Reply (Option ℕ) → SourceState
  counted st prior timed_out = stopped st timeout count_timed_out
  counted st prior raised = stopped st failed count_raised
  counted st prior (answered none) = legacy_page st (service.reads 0 0)
  counted st prior (answered (some total)) =
      let st' = record st { total = some total } in
      if total == 0
      then record st' { count = some 0; complete = true; status = empty }
      else sampled st' total (prior_pages prior)
          (page_loop cfg.max_pages (min total cfg.sample_target) 0 0 (prior_offset prior))

  unfoldable pub scan_mapped : String → Option SourceState → Option Bool → Option SourceState
  scan_mapped key prior none = none
  scan_mapped key prior (some false) = some (new_state key unmapped)
  scan_mapped key prior (some true) = some (counted (new_state key running) prior service.counts)

  -- `scan_one_source`; `build_source_query` stands outside its `try`s, and none is its exception
  unfoldable pub scan_one_source : String → Option SourceState → Option SourceState
  scan_one_source key prior = scan_mapped key prior service.query
