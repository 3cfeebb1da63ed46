-- ===== src/Fat.antt =====
-- FAT32 and exFAT of `crates/fr-fat`: boot sectors, cluster chains and the scan for deleted
-- directory entries.
pub mod Types
pub mod Boot
pub mod Chain
pub mod Names
pub mod Scan
mod Tests
