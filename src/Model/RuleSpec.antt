-- ===== src/Model/RuleSpec.antt =====
-- `RuleSpec` of crates/openshield-core/src/model.rs.
use open_shield.Base.{Bool, true, false, ◌&&◌, not, Option, none, some, is_some, is_none, same}
use open_shield.Base.Outcome.{Result, ok, ◌>>◌, reject_if, map_err}
use open_shield.Application.Selector
use open_shield.Application.Selector.{ApplicationSelector, ApplicationSelector-discrete}
use open_shield.Model.Kinds.{
  Direction, inbound, TransportProtocol, any, tcp, udp, icmp, icmp_v6, RuleOrigin, RuleAction,
  accept, Direction-discrete, TransportProtocol-discrete, RuleAction-discrete,
}
use open_shield.Model.Failure.{
  ValidationError, deny_action_on_inbound_rule, unrestricted_rule, port_with_incompatible_protocol,
  protocol_network_family_mismatch, application_selector_on_inbound_rule,
  invalid_application_selector,
}
use open_shield.Model.RuleName.{RuleName}
use open_shield.Model.InterfaceName.{InterfaceName}
use open_shield.Model.PortRange.{PortRange}
use open_shield.Model.Address.{IpNet, is_v4_net, is_v6_net}

pub record RuleSpec : Type 0 where
  pub name : RuleName
  pub direction : Direction
  pub action : RuleAction
  pub protocol : TransportProtocol
  pub peer_network : Option IpNet
  pub port : Option PortRange
  pub interface : Option InterfaceName
  pub application : Option ApplicationSelector
  pub origin : RuleOrigin
  pub enabled : Bool

abbrev pub is_tcp_or_udp : TransportProtocol → Bool
is_tcp_or_udp tcp = true
is_tcp_or_udp udp = true
is_tcp_or_udp _ = false

-- `match (self.protocol, self.peer_network)`
abbrev pub family_mismatch : TransportProtocol → Option IpNet → Bool
family_mismatch icmp network = is_v6_net network
family_mismatch icmp_v6 network = is_v4_net network
family_mismatch _ network = false

abbrev pub validate_application : Option ApplicationSelector → Result ValidationError Unit
validate_application none = ok tt
validate_application (some application) =
    map_err invalid_application_selector (Selector.validate application)

unfoldable pub validate : RuleSpec → Result ValidationError Unit
validate spec = do
  reject_if
      (same Direction-discrete spec.direction inbound
        && not (same RuleAction-discrete spec.action accept))
      deny_action_on_inbound_rule
  reject_if
      (same TransportProtocol-discrete spec.protocol any
        && is_none spec.peer_network
        && is_none spec.port
        && is_none spec.interface
        && is_none spec.application)
      unrestricted_rule
  reject_if (is_some spec.port && not (is_tcp_or_udp spec.protocol)) port_with_incompatible_protocol
  reject_if (family_mismatch spec.protocol spec.peer_network) protocol_network_family_mismatch
  reject_if (same Direction-discrete spec.direction inbound && is_some spec.application)
      application_selector_on_inbound_rule
  validate_application spec.application

unfoldable pub new :
    RuleName
    → Direction
    → TransportProtocol
    → Option IpNet
    → Option PortRange
    → Option InterfaceName
    → RuleOrigin
    → Bool
    → Result ValidationError RuleSpec
new name direction protocol peer_network port interface origin enabled = do
  let spec : RuleSpec = record {
    name = name;
    direction = direction;
    action = accept;
    protocol = protocol;
    peer_network = peer_network;
    port = port;
    interface = interface;
    application = none;
    origin = origin;
    enabled = enabled;
  }
  validate spec
  ok spec
