-- ===== src/Engine/Reports/Consistency.antt =====
-- The status of crates/openshield-daemon/src/engine.rs, against the check of its reader in
-- crates/openshield-protocol/src/lib.rs.
use open_shield.Base.{◌≡◌, ◌≢◌, refl, true, ◌&&◌, same, arith, if_cases}
use open_shield.Model.Kinds.{Mode, block_all, learning, enforcing, Mode-discrete}
use open_shield.State.Interception.{
  ApplicationInterception, no_interception, tcp_initial, per_packet, application_interception,
}
use open_shield.Protocol.Compatibility.{
  FirewallBackendKind, unknown_backend, nftables, iptables, RuntimeCompatibility, for_policy,
  is_consistent, is_consistent_with, pair, kernel_native, emergency_block_all,
  select_runtime_compatibility,
}
use open_shield.Engine.Data.{Engine}
use open_shield.Engine.Reports.{runtime_compatibility}

-- What a reader of the status accepts.
pub record IsReadable (c : RuntimeCompatibility) (mode : Mode) (kind : FirewallBackendKind)
    : Type 0 where
  pub consistent : is_consistent c ≡ true
  pub fits : is_consistent_with c mode kind ≡ true

for_policy-IsReadable :
    (kind : FirewallBackendKind) (mode : Mode) (interception : ApplicationInterception)
    → IsReadable (for_policy kind mode interception) mode kind
unfolding for_policy is_consistent is_consistent_with
for_policy-IsReadable unknown_backend mode i = record { consistent = refl; fits = refl }
for_policy-IsReadable nftables block_all i = record { consistent = refl; fits = refl }
for_policy-IsReadable nftables learning i = record { consistent = refl; fits = refl }
for_policy-IsReadable nftables enforcing no_interception = record { consistent = refl; fits = refl }
for_policy-IsReadable nftables enforcing tcp_initial = record { consistent = refl; fits = refl }
for_policy-IsReadable nftables enforcing per_packet = record { consistent = refl; fits = refl }
for_policy-IsReadable iptables block_all i = record { consistent = refl; fits = refl }
for_policy-IsReadable iptables learning i = record { consistent = refl; fits = refl }
for_policy-IsReadable iptables enforcing no_interception = record { consistent = refl; fits = refl }
for_policy-IsReadable iptables enforcing tcp_initial = record { consistent = refl; fits = refl }
for_policy-IsReadable iptables enforcing per_packet = record { consistent = refl; fits = refl }

emergency-IsReadable :
    (kind : FirewallBackendKind) (mode : Mode)
    → kind ≢ unknown_backend
    → mode ≡ block_all
    → IsReadable (pair kernel_native emergency_block_all) mode kind
unfolding is_consistent is_consistent_with
emergency-IsReadable unknown_backend mode attested blocks = absurd (attested refl)
emergency-IsReadable nftables mode attested blocks =
    rw blocks (record { consistent = refl; fits = refl })
emergency-IsReadable iptables mode attested blocks =
    rw blocks (record { consistent = refl; fits = refl })

-- The compatibility that the engine reports for a backend that is known is a pair that the
-- protocol defines, and fits the mode and the backend of the same status, in an emergency too.
pub runtime_compatibility-IsReadable :
    (kind : FirewallBackendKind) (e : Engine)
    → kind ≢ unknown_backend
    → IsReadable (runtime_compatibility kind e) e.state.mode kind
unfolding runtime_compatibility select_runtime_compatibility
runtime_compatibility-IsReadable kind e attested =
    if_cases (λ c. IsReadable c e.state.mode kind)
      (e.poisoned && same Mode-discrete e.state.mode block_all) _ _
      (λ h. emergency-IsReadable kind e.state.mode attested (ground arith))
      (λ _. for_policy-IsReadable kind e.state.mode (application_interception e.state))
