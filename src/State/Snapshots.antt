-- ===== src/State/Snapshots.antt =====
-- Validation of a snapshot and of the policy, and the way from one to the other:
-- `Snapshot::validate`, `State::validate`, `State::from_snapshot` of
-- crates/openshield-core/src/state.rs.
pub mod Loading
use open_shield.Base.{not, List, [], ◌∷◌, any, map, length, ltb, ◌==◌}
use open_shield.Base.Outcome.{Result, ok, ◌>>◌, reject_if, map_err}
use open_shield.BTree.{from_list}
use open_shield.Model.Kinds.{strict}
use open_shield.Model.Rule
use open_shield.Model.Rule.{Rule, Uuid}
use open_shield.State.Data.{
  State, Snapshot, CoreError, validation, rules_limit_reached, invalid_flow_generation,
  duplicate_rule_id, mismatched_rule_id, max_rules, in_flow_domain,
}
use open_shield.State.Pins.{reject_redacted_rule, reject_unpinned_application_spec}
use open_shield.State.External.{External}
use open_shield.State.Size.{bounded_serialized_state_size}

-- What both validations ask of one rule.
unfoldable pub validate_rule : Rule → Result CoreError Unit
validate_rule rule = do
  map_err validation (Rule.validate rule)
  reject_redacted_rule rule
  reject_unpinned_application_spec rule.spec

-- The loop of `Snapshot::validate`, with the identifiers seen.
unfoldable pub validate_rules : List Uuid → List Rule → Result CoreError Unit
unfolding validate_rule
validate_rules ids [] = ok tt
validate_rules ids (rule ∷ rest) =
    let more = validate_rules (rule.id ∷ ids) rest in
    do
      validate_rule rule
      reject_if (any (λ id. id == rule.id) ids) (duplicate_rule_id rule.id)
      more

unfoldable pub validate_snapshot : Snapshot → Result CoreError Unit
unfolding validate_rules
validate_snapshot snapshot = do
  reject_if (ltb max_rules (length snapshot.rules)) (rules_limit_reached max_rules)
  reject_if (not (in_flow_domain snapshot.flow_generation)) invalid_flow_generation
  validate_rules [] snapshot.rules

-- The loop of `State::validate`.
unfoldable pub validate_entries : List (Uuid × Rule) → Result CoreError Unit
unfolding validate_rule
validate_entries [] = ok tt
validate_entries ((id, rule) ∷ rest) =
    let more = validate_entries rest in
    do reject_if (not (id == rule.id)) (mismatched_rule_id id rule.id); validate_rule rule; more

unfoldable pub validate : External → State → Result CoreError Unit
unfolding validate_entries
validate x s = do
  reject_if (ltb max_rules (length s.rules)) (rules_limit_reached max_rules)
  reject_if (not (in_flow_domain s.flow_generation)) invalid_flow_generation
  validate_entries s.rules
  bounded_serialized_state_size x s
  ok tt

abbrev pub state_of : Snapshot → State
state_of snapshot = record {
  revision = snapshot.revision;
  flow_generation = snapshot.flow_generation;
  mode = snapshot.mode;
  enforcement_strategy = strict;
  rules = from_list [] (map (λ rule. (rule.id, rule)) snapshot.rules);
}

unfoldable pub from_snapshot : External → Snapshot → Result CoreError State
from_snapshot x snapshot = do
  validate_snapshot snapshot
  validate x (state_of snapshot)
  ok (state_of snapshot)
