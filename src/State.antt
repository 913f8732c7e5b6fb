-- ===== src/State.antt =====
-- crates/openshield-core/src/state.rs: the persisted firewall policy, its revisions and its flow
-- generations, and the automatic learning of rules.
pub mod Data
pub mod Pins
pub mod External
pub mod Size
pub mod Snapshots
pub mod Observer
pub mod Mutation
pub mod Interception
pub mod Operation
pub mod Equality
pub mod Keys
pub mod Counts
pub mod Learning
pub mod Admission
