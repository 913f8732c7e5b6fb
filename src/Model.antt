-- ===== src/Model.antt =====
-- crates/openshield-core/src/model.rs: rules, their selectors and their validation.
pub mod Kinds
pub mod Failure
pub mod RuleName
pub mod InterfaceName
pub mod PortRange
pub mod Address
pub mod RuleSpec
pub mod Rule
pub mod LearnedEndpoint
