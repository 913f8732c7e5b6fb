-- ===== src/Model/Failure.antt =====
-- `ValidationError` of crates/openshield-core/src/model.rs.
use open_shield.Base.{ℕ}
use open_shield.Application.Failure.{ApplicationValidationError}

pub data ValidationError : Type 0 where
  empty_rule_name : ValidationError
  rule_name_too_long : ℕ → ℕ → ValidationError
  invalid_rule_name : ValidationError
  invalid_interface_name : ValidationError
  invalid_port_range : ℕ → ℕ → ValidationError
  port_with_incompatible_protocol : ValidationError
  protocol_network_family_mismatch : ValidationError
  unrestricted_rule : ValidationError
  application_selector_on_inbound_rule : ValidationError
  deny_action_on_inbound_rule : ValidationError
  invalid_application_selector : ApplicationValidationError → ValidationError
  nil_rule_id : ValidationError
  invalid_rule_timestamps : ValidationError
  learned_transport_needs_port : ValidationError
  learned_endpoint_needs_interface : ValidationError
  unsupported_learned_protocol : ValidationError
