-- ===== src/Engine.antt =====
-- The factory's engine: crates/wanax-cli/src/engine.rs.
pub mod Dag
pub mod Seeding
pub mod Verdict
