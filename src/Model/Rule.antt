-- ===== src/Model/Rule.antt =====
-- `Rule` of crates/openshield-core/src/model.rs. An identifier of the crate `uuid` is its 128 bits
-- as a number, in the order of its bytes, and nil is 0; an instant of `chrono` is a number.
use open_shield.Base.{ℕ, some, ltb, ◌==◌, is_some, if◌then◌else◌}
use open_shield.Base.Outcome.{Result, ok, ◌>>◌, reject_if}
use open_shield.Application.Selector
use open_shield.Model.Failure.{ValidationError, nil_rule_id, invalid_rule_timestamps}
use open_shield.Model.RuleName.{redacted_application_rule_name}
use open_shield.Model.RuleSpec
use open_shield.Model.RuleSpec.{RuleSpec}

abbrev pub Uuid : Type 0
Uuid = ℕ

abbrev pub Instant : Type 0
Instant = ℕ

pub record Rule : Type 0 where
  pub id : Uuid
  pub spec : RuleSpec
  pub created_at : Instant
  pub updated_at : Instant

unfoldable pub with_id_and_time : Uuid → RuleSpec → Instant → Result ValidationError Rule
with_id_and_time id spec now = do
  RuleSpec.validate spec
  reject_if (id == 0) nil_rule_id
  ok (record { id = id; spec = spec; created_at = now; updated_at = now })

unfoldable pub validate : Rule → Result ValidationError Unit
validate rule = do
  reject_if (rule.id == 0) nil_rule_id
  reject_if (ltb rule.updated_at rule.created_at) invalid_rule_timestamps
  RuleSpec.validate rule.spec

abbrev pub redacted_spec : RuleSpec → RuleSpec
redacted_spec spec = record spec {
  name = record { text = redacted_application_rule_name };
  application = some Selector.redacted;
}

unfoldable pub redacted_for_observer : Rule → Rule
redacted_for_observer rule =
    if is_some rule.spec.application then record rule { spec = redacted_spec rule.spec } else rule
