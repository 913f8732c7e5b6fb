-- ===== src/Protocol/Requests.antt =====
-- `ControlRequest` and the selection of groups, of crates/openshield-protocol/src/lib.rs.
use mathlib.Core.Option.{map as map_option}
use open_shield.Base.{
  true, false, ℕ, Bool, ◌&&◌, not, Option, none, some, is_none, is_none_or, is_some_and, same,
  if◌then◌else◌,
}
use open_shield.Application.ApplicationPath.{ApplicationPath, ApplicationPath-discrete}
use open_shield.Application.CgroupPath.{CgroupPath, CgroupPath-discrete}
use open_shield.Application.Selector.{ApplicationSelector}
use open_shield.Model.Kinds.{Mode, EnforcementStrategy, outbound, Direction-discrete}
use open_shield.Model.Address.{IpNet, IpNet-discrete}
use open_shield.Model.RuleSpec.{RuleSpec}
use open_shield.Model.Rule.{Rule, Uuid}

pub data OutboundGroupSelector : Type 0 where
  in_cgroup : CgroupPath → Option ApplicationPath → OutboundGroupSelector
  of_executable : ApplicationPath → OutboundGroupSelector
  to_destination : Option IpNet → OutboundGroupSelector

pub data OutboundGroupAction : Type 0 where
  deletes_all accepts_all rejects_all drops_all enables_all disables_all : OutboundGroupAction

-- The number is the revision that the client expects.
pub data ControlRequest : Type 0 where
  set_mode : ℕ → Mode → ControlRequest
  set_enforcement : ℕ → EnforcementStrategy → ControlRequest
  create_rule : ℕ → RuleSpec → ControlRequest
  update_rule : ℕ → Uuid → RuleSpec → ControlRequest
  delete_rule : ℕ → Uuid → ControlRequest
  set_rule_enabled : ℕ → Uuid → Bool → ControlRequest
  manage_outbound_group : ℕ → OutboundGroupSelector → OutboundGroupAction → ControlRequest

abbrev pub expected_revision : ControlRequest → ℕ
expected_revision (set_mode revision _) = revision
expected_revision (set_enforcement revision _) = revision
expected_revision (create_rule revision _) = revision
expected_revision (update_rule revision _ _) = revision
expected_revision (delete_rule revision _) = revision
expected_revision (set_rule_enabled revision _ _) = revision
expected_revision (manage_outbound_group revision _ _) = revision

-- `application.filter(|application| !application.metadata_redacted)`
abbrev pub visible_application : Option ApplicationSelector → Option ApplicationSelector
visible_application none = none
visible_application (some application) =
    if not application.metadata_redacted then some application else none

abbrev pub is_path : ApplicationPath → Option ApplicationPath → Bool
is_path path o = is_some_and o (λ p. same ApplicationPath-discrete p path)

abbrev pub is_cgroup : CgroupPath → Option CgroupPath → Bool
is_cgroup cgroup o = is_some_and o (λ c. same CgroupPath-discrete c cgroup)

abbrev pub network_eq : Option IpNet → Option IpNet → Bool
network_eq none none = true
network_eq (some a) (some b) = same IpNet-discrete a b
network_eq _ _ = false

-- The `match` of `matches`, on an outbound rule; `trunc` is `IpNet::trunc`.
abbrev pub group_matches :
    (IpNet → IpNet) → OutboundGroupSelector → Option ApplicationSelector → Option IpNet → Bool
group_matches trunc (in_cgroup cgroup executable) application network =
    is_some_and application
      (λ a. is_cgroup cgroup a.cgroup && is_none_or executable (λ path. is_path path a.executable))
group_matches trunc (of_executable executable) application network =
    is_some_and application (λ a. is_none a.cgroup && is_path executable a.executable)
group_matches trunc (to_destination peer_network) application network =
    is_none_or application (λ a. is_none a.cgroup && is_none a.executable)
    && network_eq (map_option trunc network) (map_option trunc peer_network)

unfoldable pub matches : (IpNet → IpNet) → OutboundGroupSelector → Rule → Bool
matches trunc group rule =
    same Direction-discrete rule.spec.direction outbound
    && group_matches trunc group (visible_application rule.spec.application) rule.spec.peer_network
