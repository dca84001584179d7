-- ===== src/Core.antt =====
-- The crate wanax-core (crates/wanax-core/src).
pub mod RunState
pub mod WorkUnitState
pub mod AssigneeRole
pub mod WorkerAdapterKind
pub mod VerdictDecision
pub mod ErrorCode
pub mod Error
pub mod Types
pub mod State
pub mod Accept
pub mod Decimal
pub mod Money
pub mod Budget
pub mod Store
pub mod TestCommand
pub mod Contract
pub mod Dag
pub mod GlobOverlap
pub mod Lock
pub mod LockText
pub mod Env
