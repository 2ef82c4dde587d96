-- ===== src/Examples.antt =====
-- The theorems at concrete inputs.
mod Samples
mod Encoding
mod Findings
mod Suppressions
mod Engines
mod Scans
mod RateLimit
mod Coverage
mod Cursors
mod Notifications
