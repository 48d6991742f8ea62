-- ===== src/Tests.antt =====
-- Test data, and the theorems at concrete inputs.
mod Fixtures
mod Pools
mod Journal
mod Drafts
mod Reports
mod Blocks
mod Tasks
