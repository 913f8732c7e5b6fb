-- ===== src/State/Interception/Rules.antt =====
-- Which rules decide the interception mode of crates/openshield-core/src/state.rs.
use open_shield.Base.{
  ◌≡◌, refl, Bool, true, false, ◌&&◌, not, List, [], ◌∷◌, any, arith, if◌then◌else◌,
}
use open_shield.Model.Kinds.{enforcing, TransportProtocol, tcp}
use open_shield.Model.Rule.{Rule}
use open_shield.State.Interception.{
  ApplicationInterception, no_interception, tcp_initial, per_packet, is_skipped, scan,
  classify_application_interception,
}

abbrev pub is_tcp : TransportProtocol → Bool
is_tcp tcp = true
is_tcp _ = false

-- An enabled outbound rule for an application, and one whose packets cannot be told by their flow.
abbrev pub is_attributed : Rule → Bool
is_attributed rule = not (is_skipped rule)

abbrev pub is_attributed_by_packet : Rule → Bool
is_attributed_by_packet rule = is_attributed rule && not (is_tcp rule.spec.protocol)

-- The mode that the two questions to the rules decide, behind what was found before.
abbrev pub decided : ApplicationInterception → List Rule → ApplicationInterception
decided before rules =
    if any is_attributed_by_packet rules
    then per_packet
    else if any is_attributed rules
    then tcp_initial
    else before

scan-decided :
    (before : ApplicationInterception) (rules : List Rule)
    → scan before rules ≡ decided before rules
unfolding scan
scan-decided before [] = refl
scan-decided before (rule ∷ rest) =
    ground (arith, scan-decided before rest, scan-decided tcp_initial rest)

-- While enforcing, every packet is intercepted exactly if some enabled outbound rule for an
-- application is for a protocol other than TCP; otherwise the first packets of TCP flows are,
-- exactly if there is such a rule at all.
pub classify_application_interception-decided :
    (rules : List Rule)
    → classify_application_interception enforcing rules ≡ decided no_interception rules
unfolding classify_application_interception
classify_application_interception-decided rules = scan-decided no_interception rules
