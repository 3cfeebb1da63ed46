-- ===== src/Raid.antt =====
-- The crate `fr-raid` (engine/crates/fr-raid/src/lib.rs): detection of RAID metadata, manual
-- overrides, mapping of logical offsets to members, and assessment of degraded arrays.
pub mod Types
pub mod Fields
pub mod Order
pub mod Detect
pub mod Override
pub mod Map
pub mod Degraded
mod Tests
