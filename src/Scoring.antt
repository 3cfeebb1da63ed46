-- ===== src/Scoring.antt =====
-- The crates `fr-types` (engine/crates/fr-types/src/lib.rs) and `fr-scoring`
-- (engine/crates/fr-scoring/src/lib.rs): recovery candidates and the confidence in them.
pub mod Types
pub mod Score
pub mod Order
mod Tests
