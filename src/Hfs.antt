-- ===== src/Hfs.antt =====
-- HFS+ of `crates/fr-hfs`: the volume header and the scan for the records of deleted files.
pub mod Types
pub mod Header
pub mod Tombstone
pub mod Scan
mod Tests
