-- ===== src/State/Interception.antt =====
-- `classify_application_interception` of crates/openshield-core/src/state.rs.
pub mod Rules
use open_shield.Base.{Bool, ◌||◌, not, List, [], ◌∷◌, is_none, same, if◌then◌else◌}
use open_shield.BTree.{values}
use open_shield.Model.Kinds.{
  Mode, block_all, learning, enforcing, outbound, tcp, Direction-discrete,
}
use open_shield.Model.Rule.{Rule}
use open_shield.State.Data.{State, Snapshot}

pub data ApplicationInterception : Type 0 where
  no_interception : ApplicationInterception
  tcp_initial : ApplicationInterception
  per_packet : ApplicationInterception

abbrev pub is_skipped : Rule → Bool
is_skipped rule =
    not rule.spec.enabled
    || not (same Direction-discrete rule.spec.direction outbound)
    || is_none rule.spec.application

-- The loop over the rules, with `interception`.
unfoldable pub scan : ApplicationInterception → List Rule → ApplicationInterception
scan interception [] = interception
scan interception (rule ∷ rest) =
    let skipped = scan interception rest in
    let after_tcp = scan tcp_initial rest in
    if is_skipped rule
    then skipped
    else elim rule.spec.protocol [ tcp ↦ after_tcp | _ ↦ per_packet ]

unfoldable pub classify_application_interception : Mode → List Rule → ApplicationInterception
unfolding scan
classify_application_interception block_all rules = no_interception
classify_application_interception learning rules = per_packet
classify_application_interception enforcing rules = scan no_interception rules

unfoldable pub application_interception : State → ApplicationInterception
unfolding classify_application_interception
application_interception s = classify_application_interception s.mode (values s.rules)

unfoldable pub snapshot_interception : Snapshot → ApplicationInterception
unfolding classify_application_interception
snapshot_interception s = classify_application_interception s.mode s.rules
