-- ===== src/Model/Kinds.antt =====
-- The enumerations of crates/openshield-core/src/model.rs, and the firewall counters.
use open_shield.Base.{ℕ}
use open_shield.Base.Text.{Text, codes}

pub data Mode : Type 0 where
  block_all learning enforcing : Mode

pub data EnforcementStrategy : Type 0 where
  strict fast : EnforcementStrategy

pub data Direction : Type 0 where
  inbound outbound : Direction

pub data TransportProtocol : Type 0 where
  any tcp udp icmp icmp_v6 : TransportProtocol

pub data RuleOrigin : Type 0 where
  manual learned template : RuleOrigin

pub data RuleAction : Type 0 where
  accept drop reject : RuleAction

unfoldable pub Mode-discrete : Discrete Mode
Mode-discrete = hlevel

unfoldable pub Direction-discrete : Discrete Direction
Direction-discrete = hlevel

unfoldable pub TransportProtocol-discrete : Discrete TransportProtocol
TransportProtocol-discrete = hlevel

unfoldable pub RuleOrigin-discrete : Discrete RuleOrigin
RuleOrigin-discrete = hlevel

unfoldable pub RuleAction-discrete : Discrete RuleAction
RuleAction-discrete = hlevel

-- The `Display` instance of `TransportProtocol`.
abbrev pub protocol_name : TransportProtocol → Text
protocol_name any = codes "any"
protocol_name tcp = codes "tcp"
protocol_name udp = codes "udp"
protocol_name icmp = codes "icmp"
protocol_name icmp_v6 = codes "icmpv6"

pub record CounterValue : Type 0 where
  pub packets : ℕ
  pub bytes : ℕ

pub record FirewallCounters : Type 0 where
  pub accepted_in : CounterValue
  pub accepted_out : CounterValue
  pub dropped_in : CounterValue
  pub dropped_out : CounterValue
  pub learned_out : CounterValue
