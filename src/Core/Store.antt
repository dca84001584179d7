-- ===== src/Core/Store.antt =====
-- The database of runs and work units: crates/wanax-core/src/store.rs.
pub mod Rows
pub mod Tables
pub mod Runs
pub mod Units
pub mod Kept
