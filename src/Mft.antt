-- ===== src/Mft.antt =====
-- The crate `fr-mft` (engine/crates/fr-mft/src/lib.rs): NTFS file records, their fixup, their
-- attributes and the data runs of non-resident attributes.
pub mod Types
pub mod Fields
pub mod Words
pub mod Fixup
pub mod Runs
pub mod Attributes
pub mod Record
mod Tests
