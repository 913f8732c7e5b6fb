-- ===== src/Engine.antt =====
-- crates/openshield-daemon/src/engine.rs: the policy engine, which keeps the policy in memory, the
-- policy of the kernel and the state file together.
pub mod Bus
pub mod Data
pub mod Outside
pub mod Decision
pub mod Control
pub mod Persistence
pub mod Emergency
pub mod Commit
pub mod Transition
pub mod QueueAdmission
pub mod Learning
pub mod Startup
pub mod Reports
pub mod Agreement
