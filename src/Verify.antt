-- ===== src/Verify.antt =====
-- The checks on a change before it is accepted: crates/wanax-verify/src/lib.rs.
pub mod Boundaries
pub mod MustHave
pub mod Secrets
