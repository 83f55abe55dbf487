-- ===== src/Tests.antt =====
-- Runs of the model on concrete data, and the theorems at concrete data.
pub mod Data
pub mod Pure
pub mod Blobs
pub mod Repos
pub mod Edits
pub mod Sealed
pub mod Keys
pub mod Syncing
pub mod Signing
pub mod Reports
