-- ===== src/Session.antt =====
-- Recovery sessions of `crates/fr-session`: the quick scan of an NTFS volume's file records.
pub mod Types
pub mod Candidate
pub mod Paths
pub mod Order
pub mod Maps
pub mod Orchestrator
pub mod Scan
pub mod Usn
pub mod Logfile
mod Tests
