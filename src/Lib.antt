-- ===== src/Lib.antt =====
-- IcebergSST scans content sources for leaked secrets. An API owns the database; engines lease
-- tasks, scan, and submit findings; people triage what was found. This library models the core of
-- the API and the part of the engine that has to agree with it, each function translated from its
-- source.
--
-- Findings. A finding is a row that is keyed by its source and its fingerprint. Findings/Triage
-- models apps/api/src/iceberg_api/findings/triage.py (`apply` and its four parts),
-- Findings/Ownership models findings/ownership.py beside it (`load`, `matches`, `route`,
-- `start_clock`, `overdue`, `owned_counts`), and Findings/Suppressions models suppressions.py
-- (`suppress`, `release` and the three sweeps). An operation on a row gives the row after it and
-- the audit events that it writes (Findings/Events). Suppression/Matching models
-- packages/core/src/iceberg_core/suppression.py, which the API and the engine share,
-- Suppression/Covering says apart from it what a suppression covers, and Suppression/Lease models
-- the wire form of a lease's suppressions and the pre-filter of
-- apps/engine/src/iceberg_engine/suppression.py.
--
-- Results. Engines/Sighting models `_create`, `_refresh` and `_record_validation` of
-- apps/api/src/iceberg_api/engines/ingest.py, the effect of one sighting on one row through
-- routing, the clock and suppression; Engines/Ingest models `ingest_findings`, the loop over a
-- batch, with the rotation of fingerprints.
--
-- Scans. Scans/Tasks models what engines and sweeps do to the rows of `scan_task` in
-- apps/api/src/iceberg_api/scans/service.py: `claim_task`, `renew_lease`, `claim_result`,
-- `advance_checkpoint`, `discard_checkpoint`, `complete_task`, `reclaim_expired_leases` and
-- `redispatch_stale_tasks`; an update that is conditional in the source is so here and answers by
-- its row count (Prelude/Rows). Scans/Tasks/Lifecycle has the step relation of their interleavings,
-- in which the two writes of a submission are one transaction and the update of one task by
-- `cancel_scan` or `redispatch_stale_tasks` is a step. It leaves out the fan-out of
-- `create_fetch_tasks`, which adds rows, and the failure of `lease_task` (engines/routes.py) after
-- its claim, which completes the task whatever it has become. Scans/Finish models
-- `finalize_scan_if_done`, whose read of the tasks and conditional update of the scan are one
-- atomic step, and Scans/Reconcile scans/reconcile.py, where what other transactions commit between
-- the read and the writes is a parameter. Scans/Finalize models `finalize_and_reconcile`, which
-- composes these with the coverage manifest, the watermarks and the outbox in one transaction, and
-- Scans/Cancel `cancel_scan`.
--
-- Coverage. Engines/Reports models the validators of a task's coverage report in
-- apps/api/src/iceberg_api/engines/schemas.py, Scans/Coverage the merging of batches and the report
-- of a cancelled task in scans/coverage.py, and Scans/Manifest `build_manifest` there.
-- Scans/Cursors models scans/cursors.py: which watermarks may be trusted (`plan_mode`), and how a
-- scan moves them (`commit_proposals`).
--
-- Notifications. Notifications models apps/api/src/iceberg_api/notifications/dispatch.py: Filters
-- the two readings of a channel's filter, Outbox `enqueue_for_scan`, Escalation `escalate_overdue`,
-- and Delivery `deliver_pending` with its attempts and retries.
--
-- Rate limits. RateLimit models the in-memory store of apps/api/src/iceberg_api/ratelimit.py, `hit`
-- with its sweep of lapsed windows. A call reads the clock before it takes the lock, so that
-- readings come in the order of the lock is a hypothesis where it is needed.
--
-- Enums and Models hold the vocabularies and the rows of packages/core/src/iceberg_core/enums.py
-- and packages/core/src/iceberg_core/models, less the columns that no modelled operation touches.
-- Prelude has lists, tests, dicts and tables. Examples applies the theorems at concrete inputs.
--
-- A uuid is a number, a datetime its microseconds, a score the bit pattern of a float that is not
-- negative (the schema sets no lower bound on scores, and one below 0 or not a number has no such
-- pattern), a JSON column its fields. Python's integers are unbounded, so numbers here are too.
-- Subtraction stops at 0: where it occurs, the source subtracts no more than is there or takes the
-- maximum with 0. Every loop is over a list and is structural recursion, so no fuel is used.
-- Parameters stand for code outside the repository: `fnmatch.fnmatchcase`, `str.strip`,
-- `str.casefold`, `str`, `uuid.uuid4`, the text form of a uuid, pydantic's reading and writing of a
-- JSON column, and the keyed hash of a correlation id. The filter of a channel is taken as
-- validated: `EventFilter.model_validate`, which can raise, runs before the model starts. What the
-- formatter and the transport do with an attempt at a delivery is a parameter too.
--
-- Not modelled: `launch_scan`, `create_fetch_tasks` and `finalize_stalled_scans`, the HTTP routes,
-- the Redis store of rate limits, detection, the connectors, the text of an announcement and its
-- transports, remediation, hand-off, and the web console; the unique index on system events; logs
-- and metrics.
pub mod Prelude
pub mod Enums
pub mod Models
pub mod Suppression
pub mod Findings
pub mod Engines
pub mod Notifications
pub mod Scans
pub mod RateLimit
pub mod Examples
