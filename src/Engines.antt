-- ===== src/Engines.antt =====
-- apps/api/src/iceberg_api/engines: what the API does with the results that an engine reports.
pub mod Sighting
pub mod Reports
pub mod Ingest
