-- ===== src/Notifications.antt =====
-- apps/api/src/iceberg_api/notifications/dispatch.py: who is told of a finding, and the outbox by which
-- they are told.
pub mod Filters
pub mod Outbox
pub mod Escalation
pub mod Delivery
