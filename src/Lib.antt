-- ===== src/Lib.antt =====
-- Verification of DecisionCenter: the decision core of the report service in apps/edr.
--
-- A user asks for a report on a project. The retrieval nodes collect evidence and record, source by
-- source, how that went (apps/edr/graph/coverage.py); a draft is written, checked by the quality gate
-- (apps/edr/graph/node_13_quality_gate.py) under the policy of its report type
-- (apps/edr/graph/report_policy.py, apps/edr/graph/intent.py), stored in a staging area, and
-- reviewed by people through the endpoints of apps/edr/app.py; an approval copies its artifacts to
-- the final area (apps/edr/graph/node_17_publish.py). Administrators scan the Odoo sources of a
-- project in the background (apps/edr/admin/odoo_scan_session.py).
--
-- The modules:
--   Base      shared helpers: tests on numbers, lists, dicts in insertion order (Base.Dict),
--             Python code that may raise (Base.Fallible), and code that changes a state and may
--             raise (Base.Effect).
--   Rbac      apps/edr/rbac/roles.py; Rbac.Reviewer has `_require_claims`, `_validated_role`,
--             `_check_reviewer_rbac` and `_require_admin` of apps/edr/app.py, Rbac.Access its three
--             checks on who may read a report; Readers is about them.
--   Review    the review of a report. Store has the tables and the bucket of
--             apps/edr/persistence/postgres_store.py and minio_store.py; Publish has `run` of
--             node_17_publish.py; Handlers has `approve_report`, `reject_report`,
--             `request_revision`, `cancel_report`, `admin_override_approve` and
--             `admin_override_reject`. Machine has the abstract state machine of a report, one
--             step for each request and caller, and `serve`, a sequence of requests. Rows, Kept, Effects, Publishing and Approval say what
--             each handler can write; Guarantees, Archive and Success use them. SaveAudit has
--             node_15_save_audit.py and node_16_review.py, Staged is about it. Listing has
--             `list_reports` and the store's `list_audits`, Detail `get_report`; Listed is about
--             the list. Queue has `list_approval_queue`.
--   Coverage  apps/edr/graph/coverage.py.
--   Json      values of `json.loads` and what Python does with one whose type is not known.
--   Policy    report_policy.py and `classify_report_type` of intent.py.
--   Gate      the quality gate: Claims, Content and Memo have the checks, Run the dispatch and the
--             verdict; Grounding, Passed and Promises are about its verdict, Dispatch about
--             the policies that it looks up.
--   Scan      odoo_scan_session.py: Source has `scan_one_source`, Session `run_scan_session`,
--             `_overall_state`, `progress`, `init_full_session` and `select_retry_keys`; Pages,
--             Settled, Overall and Retry are about them.
--   Evidence  apps/edr/graph/node_09_normalize.py: the two passes that remove duplicates. Titles and
--             Hashes are about one pass each, Normalize about both.
--   Chunking  `chunk_text` of apps/edr/retrieval/chunking.py; Spans is about its loop,
--             Pieces about the chunks.
--   Jobs      the table `report_jobs` of apps/edr/persistence/postgres_store.py: the progress marks,
--             the two ends of a job and the repair after a restart; Recovery is about them. Service
--             has the calls to the store, Runner `run_workflow` of apps/edr/graph/runner.py and
--             `_run_report_job` of apps/edr/app.py, Staging `stage_report`, `_run_report_sync`,
--             `_enforce_complete_source_mapping` and the job branch of `cancel_report`. Status has
--             `get_report_status`. Present and Ends are about a run, Cancel about a cancelled one,
--             Queued about staging, Polled about the status.
--   Llm       apps/edr/llm.py: Tracker has `_CostTracker`, Fallback `_deterministic_output`, Call
--             `call_llm`; Guardrails and Refusals are about the caps, Log and Accounts about the
--             tables.
--   Workflow  the nodes that open a report and plan its retrieval: Auth has node_01_auth.py and
--             rbac/project_mapping.py, Identity project_identity.py, Plan node_02_intent.py,
--             node_03_scope.py and node_04_plan.py, Correct node_10_sufficiency.py and
--             node_11_self_correct.py; Verified is about the first two, Planned about the others.
-- Each component's theorems are applied to concrete data in its module Examples.
--
-- How the code is read. A handler is a function from a world to an outcome and a world, an
-- HTTPException being an outcome. A world holds the audit rows, the decisions, the admin events, the
-- bucket, and a list that says of each later service call whether it fails; a failing call changes
-- nothing. The requests of a sequence run one after the other, whole. SHA-256, `str.strip` and the
-- rendering of the approval log are parameters, as are the regular expressions, the case folding
-- and the joining of texts that the gate uses, and whether Entra is configured. Python's type errors
-- in the gate are results of their own (`raise`). The scan of a source takes what the connector
-- answers, page by page, and whether its deadline has passed, as parameters. Its paging loop runs on
-- fuel, which is the page budget of the configuration; the loop itself stops at that budget. The
-- chunking loop runs on fuel too, one more than the text has tokens, which is enough where each chunk
-- starts after the one before.
--
-- A report job runs in a world of job rows, audit rows, source mappings and tasks, whose calls go
-- through, fail, time out or are cancelled as a list says; the nodes of the workflow are arguments
-- there, each any change of that world. The language model's client is read over the cost tracker; its
-- costs are whole numbers of 10^-8 USD where the source adds floats, the transports to the providers
-- are arguments, and so are the text functions of Python's library.
--
-- Not modelled: times, durations, log lines, the texts of errors, reasons and recommendations; two
-- requests that interleave between their service calls; the draft node, the retrieval nodes, the
-- connectors, the exporters and the admin screens.
pub mod Base
pub mod Rbac
pub mod Review
pub mod Coverage
pub mod Json
pub mod Policy
pub mod Gate
pub mod Scan
pub mod Chunking
pub mod Evidence
pub mod Jobs
pub mod Llm
pub mod Workflow
