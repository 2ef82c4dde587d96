-- ===== src/Findings.antt =====
-- apps/api/src/iceberg_api/findings and apps/api/src/iceberg_api/suppressions.py: what may happen
-- to one stored finding, each operation returning the new row and the audit events it writes.
pub mod Events
pub mod Triage
pub mod Ownership
pub mod Suppressions
