-- ===== src/Usn.antt =====
-- The USN journal of `crates/fr-usn`: records of versions 2 and 3 and the labels of a reason.
pub mod Types
pub mod Reasons
pub mod Parse
pub mod Total
pub mod Encode
mod Tests
