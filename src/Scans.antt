-- ===== src/Scans.antt =====
-- apps/api/src/iceberg_api/scans: the leases of a scan's tasks, the end of a scan, and reconciliation.
pub mod Tasks
pub mod Coverage
pub mod Finish
pub mod Reconcile
pub mod Manifest
pub mod Cursors
pub mod Finalize
pub mod Cancel
