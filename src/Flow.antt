-- ===== src/Flow.antt =====
-- The flow family (runtime/flow): plans that construct, verify and activate workflows in a target.
pub mod Json
pub mod Model
pub mod Store
pub mod Advance
pub mod Lifecycle
pub mod Merge
