-- ===== src/Tests.antt =====
-- The theorems at concrete inputs, and test data.
mod Commands
mod Actions
mod Runner
mod Outbox
mod Transport
mod Device
mod Sessions
