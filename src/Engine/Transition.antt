-- ===== src/Engine/Transition.antt =====
-- The check of what learning made of a policy, in crates/openshield-daemon/src/engine.rs.
use open_shield.Base.{
  ℕ, ◌+◌, Bool, ◌&&◌, ◌||◌, not, Option, none, some, List, [], ◌∷◌, length, all, is_some, is_none,
  is_some_and, same, leb, ◌==◌,
}
use open_shield.Base.Words.{u64_max, usize_max, saturating_add}
use open_shield.BTree
use open_shield.Application.Selector.{ApplicationSelector}
use open_shield.Model.Kinds.{
  learning, outbound, accept, any, learned, template, Mode-discrete, Direction-discrete,
  TransportProtocol-discrete, RuleAction-discrete, RuleOrigin-discrete,
}
use open_shield.Model.Rule.{Rule}
use open_shield.State.Data.{State, Event, EventKind, rule_created}
use open_shield.State.Equality.{Rule-discrete, EnforcementStrategy-discrete}

abbrev pub is_valid_learned_rule : Rule → Bool
is_valid_learned_rule rule =
    same RuleOrigin-discrete rule.spec.origin learned
    && same Direction-discrete rule.spec.direction outbound
    && same RuleAction-discrete rule.spec.action accept
    && rule.spec.enabled
    && is_some rule.spec.application

abbrev pub is_group_template : ApplicationSelector → Bool
is_group_template selector =
    is_some selector.executable
    && is_none selector.executable_file
    && is_none selector.command_line
    && is_none selector.uid
    && not selector.metadata_redacted

abbrev pub is_valid_template : Rule → Bool
is_valid_template rule =
    same RuleOrigin-discrete rule.spec.origin template
    && same Direction-discrete rule.spec.direction outbound
    && same RuleAction-discrete rule.spec.action accept
    && same TransportProtocol-discrete rule.spec.protocol any
    && is_none rule.spec.peer_network
    && is_none rule.spec.port
    && is_none rule.spec.interface
    && not rule.spec.enabled
    && is_some_and rule.spec.application is_group_template

-- `state.rule(rule.id) == Some(rule)`
abbrev pub holds_rule : State → Rule → Bool
holds_rule s rule = is_some_and (BTree.get rule.id s.rules) (λ held. same Rule-discrete held rule)

abbrev pub created_rule : EventKind → Option Rule
created_rule (rule_created rule) = some rule
created_rule _ = none

abbrev pub is_valid_creation : State → State → Rule → Bool
is_valid_creation previous candidate rule =
    (is_valid_learned_rule rule || is_valid_template rule)
    && is_none (BTree.get rule.id previous.rules)
    && holds_rule candidate rule

-- The loop over the events, and the test of the revision behind it.
unfoldable pub validate_events : State → State → ℕ → List Event → Bool
validate_events previous candidate expected_revision [] = candidate.revision == expected_revision
validate_events previous candidate expected_revision (event ∷ rest) =
    let later = validate_events previous candidate (expected_revision + 1) rest in
    leb (expected_revision + 1) u64_max
    && is_some_and (created_rule event.kind) (λ rule.
      event.revision == expected_revision + 1 && is_valid_creation previous candidate rule)
    && later

-- `previous.rules().any(|rule| candidate.rule(rule.id) != Some(rule))`, negated.
abbrev pub keeps_rules : State → State → Bool
keeps_rules previous candidate = all (holds_rule candidate) (BTree.values previous.rules)

unfoldable pub validate_application_learning_transition : State → State → List Event → Bool
unfolding validate_events
validate_application_learning_transition previous candidate events =
    same Mode-discrete candidate.mode learning
    && same EnforcementStrategy-discrete candidate.enforcement_strategy
        previous.enforcement_strategy
    && candidate.flow_generation == previous.flow_generation
    && length candidate.rules == saturating_add usize_max (length previous.rules) (length events)
    && keeps_rules previous candidate
    && validate_events previous candidate previous.revision events
