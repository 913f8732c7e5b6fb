-- ===== src/State/Mutation.antt =====
-- The operations that change the policy, of crates/openshield-core/src/state.rs.
pub mod Cases
use open_shield.Base.{
  ℕ, ◌+◌, max, Bool, true, false, ◌&&◌, ◌||◌, not, Option, none, some, is_some, length, leb, ◌==◌,
  same, if◌then◌else◌,
}
use open_shield.Base.Outcome.{Result, ok, err, reject_if, map_err}
use open_shield.Base.Exec.{Exec, pure, lift, self, modify, continue, ◌>>=◌, ◌>>◌}
use open_shield.BTree
use open_shield.Model.Kinds.{
  Mode, block_all, enforcing, EnforcementStrategy, strict, accept, FirewallCounters, Mode-discrete,
  RuleAction-discrete,
}
use open_shield.Model.RuleSpec
use open_shield.Model.RuleSpec.{RuleSpec}
use open_shield.Model.Rule
use open_shield.Model.Rule.{Rule, Uuid, Instant}
use open_shield.State.Data.{
  State, Event, mode_changed, rule_created, rule_updated, rule_deleted, rule_enabled_changed,
  counters_updated, CoreError, validation, rule_not_found, duplicate_rule_id, rules_limit_reached,
  invalid_flow_generation, flow_generation_exhausted, max_rules, in_flow_domain, next_revision,
  next_flow_generation,
}
use open_shield.State.Pins.{
  reject_redacted_spec, reject_unpinned_application_spec, clear_disabled_template_pin_if_skeleton,
}

unfoldable pub rotate_flow_generation : ℕ → Exec CoreError State Unit
rotate_flow_generation generation = do
  s ← self
  lift (
      reject_if (not (in_flow_domain generation) || generation == s.flow_generation)
        invalid_flow_generation)
  modify (λ s. record s { flow_generation = generation })

-- The `match` on `next_flow_generation`: exhaustion does not keep the firewall from closing.
abbrev pub generation_for_mode : Mode → State → Result CoreError ℕ → Result CoreError ℕ
generation_for_mode block_all s (err flow_generation_exhausted) = ok s.flow_generation
generation_for_mode mode s result = result

unfoldable pub set_mode_with_strategy_at :
    Mode → EnforcementStrategy → Instant → Exec CoreError State Event
set_mode_with_strategy_at mode strategy now = do
  s ← self
  revision ← lift (next_revision s)
  flow_generation ← lift (generation_for_mode mode s (next_flow_generation s))
  modify (λ s. record s { mode = mode })
  modify (λ s. record s { enforcement_strategy = strategy })
  modify (λ s. record s { flow_generation = flow_generation })
  modify (λ s. record s { revision = revision })
  pure (record { revision = revision; occurred_at = now; kind = mode_changed s.mode mode })

unfoldable pub set_mode_at : Mode → Instant → Exec CoreError State Event
unfolding set_mode_with_strategy_at
set_mode_at mode now = do
  s ← self
  let strategy = if same Mode-discrete mode enforcing then strict else s.enforcement_strategy
  set_mode_with_strategy_at mode strategy now

-- `State::enforce`, with the time that it reads.
unfoldable pub enforce : EnforcementStrategy → Instant → Exec CoreError State Event
unfolding set_mode_with_strategy_at
enforce strategy now = set_mode_with_strategy_at enforcing strategy now

-- `test.then(|| self.next_flow_generation()).transpose()`
abbrev pub next_generation_if : Bool → State → Result CoreError (Option ℕ)
next_generation_if true s = elim (next_flow_generation s) [ ok g ↦ ok (some g) | err e ↦ err e ]
next_generation_if false s = ok none

-- `if let Some(flow_generation) = flow_generation { self.flow_generation = flow_generation; }`
abbrev pub set_generation : Option ℕ → State → State
set_generation none s = s
set_generation (some generation) s = record s { flow_generation = generation }

-- `self.rules.get(&id)` with the error of a missing rule.
abbrev pub found_rule : Uuid → Option Rule → Result CoreError Rule
found_rule id none = err (rule_not_found id)
found_rule id (some rule) = ok rule

abbrev pub put_rule : Uuid → Rule → State → State
put_rule id rule s = record s { rules = BTree.insert id rule s.rules }

unfoldable pub create_rule_at : Uuid → RuleSpec → Instant → Exec CoreError State (Rule × Event)
create_rule_at id spec now = do
  lift (reject_redacted_spec spec)
  lift (reject_unpinned_application_spec spec)
  s ← self
  lift (reject_if (leb max_rules (length s.rules)) (rules_limit_reached max_rules))
  lift (reject_if (is_some (BTree.get id s.rules)) (duplicate_rule_id id))
  rule ← lift (map_err validation (Rule.with_id_and_time id spec now))
  revision ← lift (next_revision s)
  flow_generation ← lift (
      next_generation_if
        (rule.spec.enabled && not (same RuleAction-discrete rule.spec.action accept)) s)
  modify (put_rule id rule)
  modify (set_generation flow_generation)
  modify (λ s. record s { revision = revision })
  pure (rule, record { revision = revision; occurred_at = now; kind = rule_created rule })

-- The new rule of an update.
abbrev pub replaced : Rule → RuleSpec → Instant → Rule
replaced current spec now = record current { spec = spec; updated_at = max now current.updated_at }

-- `spec.validate()?`
unfoldable pub check_spec : RuleSpec → Result CoreError Unit
check_spec spec = map_err validation (RuleSpec.validate spec)

-- The body of `update_rule_at` behind its first line.
unfoldable pub update_cleared : Uuid → RuleSpec → Instant → Exec CoreError State (Rule × Event)
update_cleared id spec now = do
  lift (check_spec spec)
  lift (reject_redacted_spec spec)
  lift (reject_unpinned_application_spec spec)
  s ← self
  revision ← lift (next_revision s)
  current ← lift (found_rule id (BTree.get id s.rules))
  flow_generation ← lift (next_flow_generation s)
  let rule = replaced current spec now
  lift (map_err validation (Rule.validate rule))
  modify (put_rule id rule)
  modify (λ s. record s { flow_generation = flow_generation })
  modify (λ s. record s { revision = revision })
  pure (rule, record { revision = revision; occurred_at = now; kind = rule_updated rule })

unfoldable pub update_rule_at : Uuid → RuleSpec → Instant → Exec CoreError State (Rule × Event)
unfolding update_cleared check_spec
update_rule_at id spec now = update_cleared id (clear_disabled_template_pin_if_skeleton spec) now

unfoldable pub delete_rule_at : Uuid → Instant → Exec CoreError State (Rule × Event)
delete_rule_at id now = do
  s ← self
  revision ← lift (next_revision s)
  rule ← lift (found_rule id (BTree.get id s.rules))
  flow_generation ← lift (next_flow_generation s)
  modify (λ s. record s { rules = BTree.remove id s.rules })
  modify (λ s. record s { flow_generation = flow_generation })
  modify (λ s. record s { revision = revision })
  pure (rule, record { revision = revision; occurred_at = now; kind = rule_deleted rule })

-- Whether the change of activation takes away an authorization that may be in use.
abbrev pub revokes : Rule → Bool → Bool
revokes current enabled =
    current.spec.enabled && not enabled
    || not current.spec.enabled
      && enabled
      && not (same RuleAction-discrete current.spec.action accept)

abbrev pub with_activation : Rule → Bool → Instant → Rule
with_activation current enabled now = record current {
  spec = clear_disabled_template_pin_if_skeleton (record current.spec { enabled = enabled });
  updated_at = max now current.updated_at;
}

unfoldable pub set_rule_enabled_at : Uuid → Bool → Instant → Exec CoreError State (Rule × Event)
set_rule_enabled_at id enabled now = do
  s ← self
  revision ← lift (next_revision s)
  current ← lift (found_rule id (BTree.get id s.rules))
  flow_generation ← lift (next_generation_if (revokes current enabled) s)
  let rule = with_activation current enabled now
  lift (map_err validation (Rule.validate rule))
  lift (reject_unpinned_application_spec rule.spec)
  modify (put_rule id rule)
  modify (set_generation flow_generation)
  modify (λ s. record s { revision = revision })
  pure (rule, record { revision = revision; occurred_at = now; kind = rule_enabled_changed rule })

unfoldable pub counters_event : FirewallCounters → Instant → State → Event
counters_event counters occurred_at s = record {
  revision = s.revision;
  occurred_at = occurred_at;
  kind = counters_updated counters;
}
