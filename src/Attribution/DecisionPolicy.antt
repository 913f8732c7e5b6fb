-- ===== src/Attribution/DecisionPolicy.antt =====
-- `ApplicationDecisionPolicy` of crates/openshield-daemon/src/application.rs: the rules that decide
-- attributed packets, indexed by the file that they are pinned to.
pub mod Indexing
pub mod Decisions
pub mod Denials
pub mod Capture
use mathlib.Core.Option.{or_else}
use open_shield.Base.{
  ℕ, zero, suc, ◌+◌, Bool, true, false, ◌&&◌, ◌||◌, not, Option, none, some, List, [], ◌∷◌, ◌++◌,
  keep, is_none, is_none_or, is_some_and, same, ltb, leb, ◌==◌, if◌then◌else◌, ℕ_discrete,
}
use open_shield.Application.ApplicationPath.{ApplicationPath-discrete}
use open_shield.Application.FileId.{ExecutableFileId, ExecutableFileId-discrete}
use open_shield.Application.Selector
use open_shield.Application.Selector.{ApplicationSelector, ApplicationIdentity}
use open_shield.Model.Kinds.{
  EnforcementStrategy, strict, fast, outbound, TransportProtocol, any, RuleAction, accept, drop,
  reject, learned, Direction-discrete, TransportProtocol-discrete, RuleAction-discrete,
  RuleOrigin-discrete,
}
use open_shield.Model.InterfaceName.{InterfaceName, InterfaceName-discrete}
use open_shield.Model.PortRange.{PortRange}
use open_shield.Model.Address.{IpAddr, IpNet}
use open_shield.Model.Rule.{Rule}
use open_shield.State.Data.{Snapshot}

pub record OutboundConnection : Type 0 where
  pub source_address : IpAddr
  pub source_port : Option ℕ
  pub destination_address : IpAddr
  pub destination_port : Option ℕ
  pub protocol : TransportProtocol
  pub output_interface : InterfaceName
  pub socket_uid : ℕ

-- The hash map from files to the positions of their rules, as its entries.
abbrev pub FileIndex : Type 0
FileIndex = List (ExecutableFileId × List ℕ)

pub record ApplicationDecisionPolicy : Type 0 where
  pub enforcement_strategy : EnforcementStrategy
  pub snapshot : Snapshot
  pub rules_by_executable : FileIndex
  pub network_accept_rules : List ℕ

-- `.get(&file).into_iter().flatten()`
unfoldable pub positions : ExecutableFileId → FileIndex → List ℕ
positions file [] = []
positions file ((f, found) ∷ rest) =
    let later = positions file rest in
    if same ExecutableFileId-discrete f file then found else later

-- `.entry(file).or_default().push(position)`
unfoldable pub push_position : ExecutableFileId → ℕ → FileIndex → FileIndex
push_position file position [] = (file, position ∷ []) ∷ []
push_position file position ((f, found) ∷ rest) =
    let later = push_position file position rest in
    if same ExecutableFileId-discrete f file
    then (f, found ++ position ∷ []) ∷ rest
    else (f, found) ∷ later

abbrev pub index_file : Option ExecutableFileId → ℕ → FileIndex → FileIndex
index_file none position index = index
index_file (some file) position index = push_position file position index

abbrev pub is_network_accept : Rule → Bool
is_network_accept rule =
    rule.spec.enabled
    && same Direction-discrete rule.spec.direction outbound
    && same RuleAction-discrete rule.spec.action accept

-- The `match` on the application of the rule at a position.
abbrev pub index_rule : ℕ → Rule → FileIndex × List ℕ → FileIndex × List ℕ
index_rule position rule (index, accepts) = elim rule.spec.application [
  | some selector ↦ (index_file selector.executable_file position index, accepts)
  | none ↦ if is_network_accept rule then (index, accepts ++ position ∷ []) else (index, accepts)
]

-- The loop over the rules with their positions.
unfoldable pub index_rules : ℕ → List Rule → FileIndex × List ℕ → FileIndex × List ℕ
index_rules position [] found = found
index_rules position (rule ∷ rest) found =
    index_rules (suc position) rest (index_rule position rule found)

unfoldable pub new : Snapshot → ApplicationDecisionPolicy
unfolding index_rules
new snapshot =
    let found = index_rules 0 snapshot.rules ([], []) in
    record {
      enforcement_strategy = strict;
      snapshot = snapshot;
      rules_by_executable = found.0;
      network_accept_rules = found.1;
    }

abbrev pub with_enforcement_strategy :
    EnforcementStrategy → ApplicationDecisionPolicy → ApplicationDecisionPolicy
with_enforcement_strategy strategy policy = record policy { enforcement_strategy = strategy }

-- `rules.get(index)`
abbrev pub get_elem? : List Rule → ℕ → Option Rule
get_elem? [] n = none
get_elem? (rule ∷ rest) zero = some rule
get_elem? (rule ∷ rest) (suc n) = get_elem? rest n

abbrev pub push_some : Option Rule → List Rule → List Rule
push_some none rules = rules
push_some (some rule) rules = rule ∷ rules

-- `.filter_map(|index| rules.get(*index))`
unfoldable pub rules_at : List Rule → List ℕ → List Rule
rules_at rules [] = []
rules_at rules (position ∷ rest) = push_some (get_elem? rules position) (rules_at rules rest)

-- `min_by_key`, which returns the first of the least elements.
unfoldable pub min_by : (Rule → Rule → Bool) → List Rule → Option Rule
min_by less [] = none
min_by less (rule ∷ rest) = elim (min_by less rest) [
  | none ↦ some rule
  | some other ↦ if less other rule then some other else some rule
]

abbrev pub rule_action_priority : RuleAction → ℕ
rule_action_priority drop = 0
rule_action_priority reject = 1
rule_action_priority accept = 2

-- The order of the keys `(rule_action_priority(rule.spec.action), rule.id)`.
abbrev pub decides_before : Rule → Rule → Bool
decides_before a b =
    ltb (rule_action_priority a.spec.action) (rule_action_priority b.spec.action)
    || (rule_action_priority a.spec.action == rule_action_priority b.spec.action && ltb a.id b.id)

abbrev pub is_older : Rule → Rule → Bool
is_older a b = ltb a.id b.id

abbrev pub in_range : PortRange → Option ℕ → Bool
in_range range port = is_some_and port (λ p. leb range.start p && leb p range.end)

-- `contains` is `IpNet::contains`.
unfoldable pub outbound_network_selectors_match :
    (IpNet → IpAddr → Bool) → Rule → OutboundConnection → Bool
outbound_network_selectors_match contains rule connection =
    rule.spec.enabled
    && same Direction-discrete rule.spec.direction outbound
    && (same TransportProtocol-discrete rule.spec.protocol any
        || same TransportProtocol-discrete rule.spec.protocol connection.protocol)
    && is_none_or rule.spec.peer_network
        (λ network. contains network connection.destination_address)
    && is_none_or rule.spec.port (λ range. in_range range connection.destination_port)
    && is_none_or rule.spec.interface
        (λ interface. same InterfaceName-discrete interface connection.output_interface)

unfoldable pub application_rule_network_and_uid_matches :
    (IpNet → IpAddr → Bool) → Rule → OutboundConnection → Bool
unfolding outbound_network_selectors_match
application_rule_network_and_uid_matches contains rule connection =
    outbound_network_selectors_match contains rule connection
    && is_some_and rule.spec.application
        (λ selector. is_none_or selector.uid (λ expected. expected == connection.socket_uid))

unfoldable pub application_rule_matches :
    (IpNet → IpAddr → Bool) → OutboundConnection → ApplicationIdentity → Rule → Bool
unfolding application_rule_network_and_uid_matches
application_rule_matches contains connection identity rule =
    application_rule_network_and_uid_matches contains rule connection
    && is_some_and rule.spec.application (λ selector. Selector.matches selector identity)

abbrev pub is_stable_selector : ApplicationIdentity → ApplicationSelector → Bool
is_stable_selector identity selector =
    not selector.metadata_redacted
    && is_some_and selector.executable
        (λ expected. same ApplicationPath-discrete expected identity.executable)
    && is_some_and selector.executable_file
        (λ expected. same ExecutableFileId-discrete expected identity.executable_file)
    && is_some_and selector.uid (λ expected. expected == identity.uid)

unfoldable pub fast_learned_accept_rule_matches :
    (IpNet → IpAddr → Bool) → OutboundConnection → ApplicationIdentity → Rule → Bool
unfolding application_rule_network_and_uid_matches
fast_learned_accept_rule_matches contains connection identity rule =
    same RuleOrigin-discrete rule.spec.origin learned
    && same RuleAction-discrete rule.spec.action accept
    && application_rule_network_and_uid_matches contains rule connection
    && is_some_and rule.spec.application (is_stable_selector identity)

unfoldable pub outbound_network_rule_matches :
    (IpNet → IpAddr → Bool) → OutboundConnection → Rule → Bool
unfolding outbound_network_selectors_match
outbound_network_rule_matches contains connection rule =
    is_none rule.spec.application
    && same RuleAction-discrete rule.spec.action accept
    && outbound_network_selectors_match contains rule connection

unfoldable pub candidates : ApplicationDecisionPolicy → ApplicationIdentity → List Rule
unfolding positions rules_at
candidates policy identity =
    rules_at policy.snapshot.rules (positions identity.executable_file policy.rules_by_executable)

unfoldable pub matching_network_accept :
    (IpNet → IpAddr → Bool) → ApplicationDecisionPolicy → OutboundConnection → Option Rule
unfolding rules_at min_by outbound_network_rule_matches
matching_network_accept contains policy connection = min_by is_older (
    keep (outbound_network_rule_matches contains connection)
      (rules_at policy.snapshot.rules policy.network_accept_rules))

-- `(strategy == Fast).then(..).flatten()`
abbrev pub fast_match :
    (IpNet → IpAddr → Bool)
    → EnforcementStrategy
    → List Rule
    → OutboundConnection
    → ApplicationIdentity
    → Option Rule
fast_match contains strict rules connection identity = none
fast_match contains fast rules connection identity =
    min_by is_older (keep (fast_learned_accept_rule_matches contains connection identity) rules)

unfoldable pub matching_rule :
    (IpNet → IpAddr → Bool)
    → ApplicationDecisionPolicy
    → OutboundConnection
    → ApplicationIdentity
    → Option Rule
unfolding candidates matching_network_accept min_by application_rule_matches
    fast_learned_accept_rule_matches
matching_rule contains policy connection identity =
    let rules = candidates policy identity in
    or_else
      (or_else
        (min_by decides_before (keep (application_rule_matches contains connection identity) rules))
        (fast_match contains policy.enforcement_strategy rules connection identity))
      (matching_network_accept contains policy connection)

abbrev pub is_deny : Rule → Bool
is_deny rule = not (same RuleAction-discrete rule.spec.action accept)

unfoldable pub matching_deny_rule :
    (IpNet → IpAddr → Bool)
    → ApplicationDecisionPolicy
    → OutboundConnection
    → ApplicationIdentity
    → Option Rule
unfolding candidates min_by application_rule_matches
matching_deny_rule contains policy connection identity = min_by decides_before (
    keep (application_rule_matches contains connection identity)
      (keep is_deny (candidates policy identity)))
