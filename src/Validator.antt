-- ===== src/Validator.antt =====
-- The crate `fr-validator` (engine/crates/fr-validator/src/lib.rs): checks of carved bytes against
-- the file format that they were carved as.
pub mod Types
pub mod Fields
pub mod Text
pub mod Images
pub mod Archives
pub mod Media
pub mod Carved
mod Tests
