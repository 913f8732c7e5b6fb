-- ===== src/State/Observer.antt =====
-- What an unprivileged observer may see: `validate_for_observer` and `redacted_for_observer` of
-- crates/openshield-core/src/state.rs.
pub mod Views
pub mod Secrecy
use open_shield.Base.{
  Bool, ◌&&◌, not, xor, Option, none, some, List, [], ◌∷◌, any, map, length, ltb, ◌==◌, is_some_and,
  if◌then◌else◌,
}
use open_shield.Base.Outcome.{Result, ok, ◌>>=◌, ◌>>◌, reject_if, map_err}
use open_shield.Base.Text.{text_eq}
use open_shield.Model.RuleName.{redacted_application_rule_name}
use open_shield.Model.RuleSpec.{RuleSpec}
use open_shield.Application.Selector.{ApplicationSelector}
use open_shield.Model.Rule
use open_shield.Model.Rule.{Rule, Uuid}
use open_shield.State.Data.{
  Snapshot, Event, EventKind, rule_created, rule_updated, rule_deleted, rule_enabled_changed,
  CoreError, validation, rules_limit_reached, invalid_flow_generation, duplicate_rule_id,
  invalid_observer_redaction, max_rules, in_flow_domain,
}
use open_shield.State.Pins.{reject_unpinned_application_spec}

-- The block of the loop for a rule with an application; the result is the new redaction state.
abbrev pub check_redaction :
    RuleSpec → Option ApplicationSelector → Option Bool → Result CoreError (Option Bool)
check_redaction spec none redaction_state = ok redaction_state
check_redaction spec (some selector) redaction_state = do
  let redacted = selector.metadata_redacted
  reject_if (redacted && not (text_eq spec.name.text redacted_application_rule_name))
      invalid_observer_redaction
  (if redacted then ok tt else reject_unpinned_application_spec spec)
  reject_if (is_some_and redaction_state (λ previous. xor previous redacted))
      invalid_observer_redaction
  ok (some redacted)

unfoldable pub validate_observed : List Uuid → Option Bool → List Rule → Result CoreError Unit
validate_observed ids redaction_state [] = ok tt
validate_observed ids redaction_state (rule ∷ rest) = do
  map_err validation (Rule.validate rule)
  next ← check_redaction rule.spec rule.spec.application redaction_state
  reject_if (any (λ id. id == rule.id) ids) (duplicate_rule_id rule.id)
  validate_observed (rule.id ∷ ids) next rest

unfoldable pub validate_for_observer : Snapshot → Result CoreError Unit
unfolding validate_observed
validate_for_observer snapshot = do
  reject_if (ltb max_rules (length snapshot.rules)) (rules_limit_reached max_rules)
  reject_if (not (in_flow_domain snapshot.flow_generation)) invalid_flow_generation
  validate_observed [] none snapshot.rules

unfoldable pub redacted_for_observer : Snapshot → Snapshot
redacted_for_observer snapshot = record snapshot {
  rules = map Rule.redacted_for_observer snapshot.rules;
}

abbrev pub redacted_kind : EventKind → EventKind
redacted_kind (rule_created rule) = rule_created (Rule.redacted_for_observer rule)
redacted_kind (rule_updated rule) = rule_updated (Rule.redacted_for_observer rule)
redacted_kind (rule_deleted rule) = rule_deleted (Rule.redacted_for_observer rule)
redacted_kind (rule_enabled_changed rule) = rule_enabled_changed (Rule.redacted_for_observer rule)
redacted_kind other = other

unfoldable pub redacted_event : Event → Event
redacted_event event = record event { kind = redacted_kind event.kind }
