-- ===== src/Mapping.antt =====
-- The mapping family (runtime/mapping).
pub mod Field
pub mod Properties
pub mod Links
pub mod Pending
pub mod Owner
