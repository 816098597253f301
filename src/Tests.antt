-- ===== src/Tests.antt =====
-- Concrete runs: the witnesses of the theorems, and tests of the definitions.
mod Logs
mod Cursors
mod Commits
mod Aggregates
mod Leases
mod Schemas
mod Consumers
mod Units
