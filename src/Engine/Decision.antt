-- ===== src/Engine/Decision.antt =====
-- The policies that `Engine` of crates/openshield-daemon/src/engine.rs derives from its state.
use open_shield.Base.{Bool, ◌&&◌, ◌||◌, not, none, List, [], keep, is_some, same, if◌then◌else◌}
use open_shield.BTree.{values}
use open_shield.Model.Kinds.{
  block_all, learning, enforcing, strict, outbound, accept, Mode-discrete, Direction-discrete,
  RuleAction-discrete,
}
use open_shield.Model.Rule.{Rule}
use open_shield.State.Data.{State}
use open_shield.State.Admission.{from_state}
use open_shield.Attribution.DecisionPolicy
use open_shield.Attribution.DecisionPolicy.{ApplicationDecisionPolicy, with_enforcement_strategy}
use open_shield.Engine.Data.{Engine}

abbrev pub decides_enforcing : Rule → Bool
decides_enforcing rule =
    rule.spec.enabled
    && (is_some rule.spec.application
        || same Direction-discrete rule.spec.direction outbound
          && same RuleAction-discrete rule.spec.action accept)

abbrev pub decides_learning : Rule → Bool
decides_learning rule =
    rule.spec.enabled
    && same Direction-discrete rule.spec.direction outbound
    && is_some rule.spec.application
    && not (same RuleAction-discrete rule.spec.action accept)

-- `match state.mode()`, over `state.rules()`.
abbrev pub deciding_rules : State → List Rule
deciding_rules s = elim s.mode [
  | enforcing ↦ keep decides_enforcing (values s.rules)
  | learning ↦ keep decides_learning (values s.rules)
  | block_all ↦ []
]

unfoldable pub build_application_decision_policy : State → ApplicationDecisionPolicy
unfolding DecisionPolicy.new
build_application_decision_policy s =
    with_enforcement_strategy
      (if same Mode-discrete s.mode enforcing then s.enforcement_strategy else strict)
      (DecisionPolicy.new (record {
        revision = s.revision;
        flow_generation = s.flow_generation;
        mode = s.mode;
        rules = deciding_rules s;
      }))

-- `clear_pending_application_learning`.
abbrev pub clear_pending_application_learning : Engine → Engine
clear_pending_application_learning e = record e {
  pending_application_learning_admission = none;
  pending_application_learning_candidate = none;
  pending_application_learning_events = [];
}

-- `Engine::replace_state`.
unfoldable pub replace_state : State → Engine → Engine
unfolding build_application_decision_policy from_state
replace_state s e = clear_pending_application_learning (record e {
  state = s;
  application_policy = build_application_decision_policy s;
  application_learning_admission = from_state s e.learning_limits;
})
