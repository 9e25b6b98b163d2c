-- ===== src/Tests.antt =====
-- Examples: each theorem at a concrete input.
pub mod Ledger
pub mod Journal
pub mod Mapping
pub mod Batch
pub mod Engine
pub mod Scope
pub mod Flow
pub mod FlowHost
pub mod Continuous
