-- ===== src/Review.antt =====
-- Human review of a report, from apps/edr/app.py (the review endpoints), apps/edr/persistence
-- (the audit and decision tables, the artifact bucket) and apps/edr/graph/node_17_publish.py.
pub mod Store
pub mod Detail
pub mod Listing
pub mod Listed
pub mod ListExamples
pub mod Queue
pub mod Rows
pub mod Kept
pub mod Effects
pub mod Publishing
pub mod Approval
pub mod Archive
pub mod Success
pub mod Machine
pub mod Guarantees
pub mod Publish
pub mod SaveAudit
pub mod Staged
pub mod Handlers
mod Examples
mod SaveExamples
