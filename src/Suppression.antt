-- ===== src/Suppression.antt =====
-- packages/core/src/iceberg_core/suppression.py, and the pre-filter of
-- apps/engine/src/iceberg_engine/suppression.py that the engine runs with the same matcher.
pub mod Matching
pub mod Covering
pub mod Lease
