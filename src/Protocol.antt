-- ===== src/Protocol.antt =====
-- crates/openshield-protocol/src/lib.rs: what a client and the daemon say to each other.
pub mod Errors
pub mod Requests
pub mod Compatibility
pub mod Responses
