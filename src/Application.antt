-- ===== src/Application.antt =====
-- crates/openshield-core/src/application.rs: the application identity that a rule may require.
pub mod Failure
pub mod Characters
pub mod ApplicationPath
pub mod CgroupPath
pub mod CommandArgument
pub mod CommandLine
pub mod FileId
pub mod Selector
pub mod Identity
pub mod Learned
