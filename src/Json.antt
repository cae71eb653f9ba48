-- ===== src/Json.antt =====
-- The JSON report writer of src/util.cu.
pub mod Sanitize
pub mod State
pub mod Print
pub mod Writer
pub mod Machine
pub mod Document
pub mod Finish
pub mod Runs
mod Tests
