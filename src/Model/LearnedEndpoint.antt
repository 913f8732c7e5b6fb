-- ===== src/Model/LearnedEndpoint.antt =====
-- `LearnedEndpoint` of crates/openshield-core/src/model.rs, and `LearnedApplicationEndpoint` of
-- crates/openshield-core/src/application.rs.
use open_shield.Base.{◌||◌, Option, is_none}
use open_shield.Base.Outcome.{Result, ok, err, ◌>>◌, reject_if, map_err}
use open_shield.Application.Failure.{
  ApplicationValidationError, invalid_learned_endpoint, incomplete_learned_application_identity,
}
use open_shield.Application.Selector
use open_shield.Application.Selector.{ApplicationSelector}
use open_shield.Model.Kinds.{TransportProtocol, any, tcp, udp, icmp, icmp_v6}
use open_shield.Model.Failure.{
  ValidationError, learned_endpoint_needs_interface, learned_transport_needs_port,
  protocol_network_family_mismatch, unsupported_learned_protocol,
}
use open_shield.Model.InterfaceName.{InterfaceName}
use open_shield.Model.PortRange.{PortRange}
use open_shield.Model.Address.{IpAddr, is_ipv4, is_ipv6}

pub record LearnedEndpoint : Type 0 where
  pub address : IpAddr
  pub protocol : TransportProtocol
  pub port : Option PortRange
  pub interface : Option InterfaceName

-- `match self.protocol`
abbrev pub validate_protocol :
    TransportProtocol → IpAddr → Option PortRange → Result ValidationError Unit
validate_protocol tcp address port = reject_if (is_none port) learned_transport_needs_port
validate_protocol udp address port = reject_if (is_none port) learned_transport_needs_port
validate_protocol icmp address port = reject_if (is_ipv6 address) protocol_network_family_mismatch
validate_protocol icmp_v6 address port =
    reject_if (is_ipv4 address) protocol_network_family_mismatch
validate_protocol any address port = err unsupported_learned_protocol

unfoldable pub validate : LearnedEndpoint → Result ValidationError Unit
validate endpoint = do
  reject_if (is_none endpoint.interface) learned_endpoint_needs_interface
  validate_protocol endpoint.protocol endpoint.address endpoint.port
  ok tt

pub record LearnedApplicationEndpoint : Type 0 where
  pub endpoint : LearnedEndpoint
  pub application : ApplicationSelector

unfoldable pub validate_application_endpoint :
    LearnedApplicationEndpoint → Result ApplicationValidationError Unit
validate_application_endpoint learned = do
  map_err (λ _. invalid_learned_endpoint) (validate learned.endpoint)
  Selector.validate learned.application
  reject_if (is_none learned.application.uid || is_none learned.application.executable_file)
      incomplete_learned_application_identity
  ok tt
