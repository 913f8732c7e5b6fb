-- ===== src/Protocol/Compatibility.antt =====
-- `RuntimeCompatibility` of crates/openshield-protocol/src/lib.rs: which packet path is in use.
use open_shield.Base.{Bool, true, false}
use open_shield.Model.Kinds.{Mode, block_all, learning, enforcing}
use open_shield.State.Interception.{
  ApplicationInterception, no_interception, tcp_initial, per_packet,
}

pub data FirewallBackendKind : Type 0 where
  unknown_backend nftables iptables : FirewallBackendKind

pub data CompatibilityLevel : Type 0 where
  unknown_level kernel_native conntrack_hybrid nfqueue_level : CompatibilityLevel

pub data CompatibilityReason : Type 0 where
  unknown_reason blocks_all emergency_block_all network_only learns application_tcp
        application_per_packet :
      CompatibilityReason

pub record RuntimeCompatibility : Type 0 where
  pub level : CompatibilityLevel
  pub reason : CompatibilityReason

abbrev pub pair : CompatibilityLevel → CompatibilityReason → RuntimeCompatibility
pair level reason = record { level = level; reason = reason }

-- `match mode`, for an attested backend.
abbrev pub active_path : Mode → ApplicationInterception → RuntimeCompatibility
active_path block_all _ = pair kernel_native blocks_all
active_path learning _ = pair nfqueue_level learns
active_path enforcing no_interception = pair kernel_native network_only
active_path enforcing tcp_initial = pair conntrack_hybrid application_tcp
active_path enforcing per_packet = pair nfqueue_level application_per_packet

unfoldable pub for_policy :
    FirewallBackendKind → Mode → ApplicationInterception → RuntimeCompatibility
for_policy unknown_backend mode _ = pair unknown_level unknown_reason
for_policy nftables mode interception = active_path mode interception
for_policy iptables mode interception = active_path mode interception

abbrev consistent_pair : CompatibilityLevel → CompatibilityReason → Bool
consistent_pair unknown_level unknown_reason = true
consistent_pair kernel_native blocks_all = true
consistent_pair kernel_native emergency_block_all = true
consistent_pair kernel_native network_only = true
consistent_pair conntrack_hybrid application_tcp = true
consistent_pair nfqueue_level learns = true
consistent_pair nfqueue_level application_per_packet = true
consistent_pair _ _ = false

unfoldable pub is_consistent : RuntimeCompatibility → Bool
is_consistent c = consistent_pair c.level c.reason

-- The patterns of `is_consistent_with` for an attested backend.
abbrev attested : Mode → CompatibilityLevel → CompatibilityReason → Bool
attested block_all kernel_native blocks_all = true
attested block_all kernel_native emergency_block_all = true
attested learning nfqueue_level learns = true
attested enforcing kernel_native network_only = true
attested enforcing conntrack_hybrid application_tcp = true
attested enforcing nfqueue_level application_per_packet = true
attested _ _ _ = false

abbrev unattested : CompatibilityLevel → CompatibilityReason → Bool
unattested unknown_level unknown_reason = true
unattested _ _ = false

unfoldable pub is_consistent_with : RuntimeCompatibility → Mode → FirewallBackendKind → Bool
is_consistent_with c mode nftables = attested mode c.level c.reason
is_consistent_with c mode iptables = attested mode c.level c.reason
is_consistent_with c mode unknown_backend = unattested c.level c.reason

-- The daemon's `select_runtime_compatibility` of crates/openshield-daemon/src/compatibility.rs.
unfoldable pub select_runtime_compatibility :
    FirewallBackendKind → Mode → ApplicationInterception → RuntimeCompatibility
unfolding for_policy
select_runtime_compatibility backend mode interception = for_policy backend mode interception
