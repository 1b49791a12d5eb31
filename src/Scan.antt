-- ===== src/Scan.antt =====
-- The deep scan of the Odoo sources, apps/edr/admin/odoo_scan_session.py: the states of a source and
-- what the scan asks of the connector.
pub mod Source
pub mod Pages
pub mod Settled
pub mod Session
pub mod Overall
pub mod Retry
mod Examples
use decision_center.Base.{Bool, true, false, Option, none, String, ℕ, List, any_of}

-- The per-source vocabulary; `not_scanned` is the admin page's and no scan writes it.
pub data Status : Type 0 where
  pending running completed partial capped empty failed timeout unmapped : Status

-- Why a scan of one source stopped, in place of the error text.
pub data ScanError : Type 0 where
  count_timed_out count_raised read_timed_out read_raised engine_raised : ScanError

-- `ScanConfig`, less the two durations
pub record ScanConfig : Type 0 where
  pub page_size : ℕ
  pub sample_target : ℕ
  pub max_pages : ℕ

-- `SourceScanState`, less its duration and time
pub record SourceState : Type 0 where
  pub key : String
  pub status : Status
  pub count : Option ℕ
  pub total : Option ℕ
  pub is_capped : Bool
  pub complete : Bool
  pub error : Option ScanError
  pub pages_done : ℕ
  pub next_offset : ℕ

-- The defaults of the dataclass.
abbrev pub new_state : String → Status → SourceState
new_state k s = record {
  key = k;
  status = s;
  count = none;
  total = none;
  is_capped = false;
  complete = false;
  error = none;
  pages_done = 0;
  next_offset = 0;
}

-- What an awaited call gives: a value, `asyncio.TimeoutError`, or another exception.
pub data Reply {ℓ} (A : Type ℓ) : Type ℓ where
  answered : A → Reply A
  timed_out raised : Reply A

-- The outside of one scan of one source: whether the mapping scopes the source (none where
-- `build_source_query` raises), the answer of `count_fn`, the number of rows that `read_fn` gives on the n-th page at an offset, and whether the
-- deadline has passed before the n-th page.
pub record Service : Type 0 where
  pub query : Option Bool
  pub counts : Reply (Option ℕ)
  pub reads : ℕ → ℕ → Reply ℕ
  pub past_deadline : ℕ → Bool

abbrev pub same_status : Status → Status → Bool
same_status pending pending = true
same_status running running = true
same_status completed completed = true
same_status partial partial = true
same_status capped capped = true
same_status empty empty = true
same_status failed failed = true
same_status timeout timeout = true
same_status unmapped unmapped = true
same_status _ _ = false

-- `status in {...}`
abbrev pub one_of : List Status → Status → Bool
one_of ss s = any_of (same_status s) ss
