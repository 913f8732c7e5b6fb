-- ===== src/Attribution.antt =====
-- crates/openshield-daemon/src/application.rs: executables pinned to files, and the indexed policy
-- with which attributed packets are decided.
pub mod Pinning
pub mod DecisionPolicy
