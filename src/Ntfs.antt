-- ===== src/Ntfs.antt =====
-- The crate `fr-ntfs` (engine/crates/fr-ntfs/src/lib.rs): the boot sector of an NTFS volume.
pub mod Sector
pub mod Valid
pub mod Overflow
mod Tests
