-- ===== src/Scenarios.antt =====
-- Concrete runs, units, locks and texts, on which the theorems are applied.
mod Replies
mod Contracts
mod Envelopes
mod Seeds
mod TopoSorts
mod Codec
mod Decisions
mod Runs
mod Dags
mod Checks
