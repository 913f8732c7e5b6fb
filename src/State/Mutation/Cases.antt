-- ===== src/State/Mutation/Cases.antt =====
-- One case rule for each operation of crates/openshield-core/src/state.rs: every error leaves the
-- policy as it was, and a success has the state and the facts named here.
use open_shield.Base.{ℕ, ◌≡◌, Bool, ◌&&◌, ◌||◌, not, Option, is_some, length, leb, ◌==◌, same}
use open_shield.Base.Outcome.{Result, ok, err, reject_if, map_err}
use open_shield.Base.Exec.{lift_cases}
use open_shield.BTree
use open_shield.Model.Kinds.{Mode, EnforcementStrategy, accept, RuleAction-discrete}
use open_shield.Model.RuleSpec.{RuleSpec}
use open_shield.Model.Rule
use open_shield.Model.Rule.{Rule, Uuid, Instant}
use open_shield.State.Data.{
  State, Event, EventKind, mode_changed, rule_created, rule_updated, rule_deleted,
  rule_enabled_changed, CoreError, validation, duplicate_rule_id, rules_limit_reached,
  invalid_flow_generation, max_rules, in_flow_domain, next_revision, next_flow_generation,
}
use open_shield.State.Pins.{reject_redacted_spec, reject_unpinned_application_spec}
use open_shield.State.Mutation.{
  rotate_flow_generation, set_mode_with_strategy_at, create_rule_at, update_cleared, delete_rule_at,
  set_rule_enabled_at, generation_for_mode, next_generation_if, set_generation, found_rule,
  put_rule, check_spec, replaced, revokes, with_activation,
}

abbrev pub event_of : ℕ → Instant → EventKind → Event
event_of revision now kind = record { revision = revision; occurred_at = now; kind = kind }

pub rotate_cases :
    (P : Result CoreError Unit × State → Type 0) (generation : ℕ) (s : State)
    → ((e : CoreError) → P (err e, s))
    → (reject_if
            (not (in_flow_domain generation) || generation == s.flow_generation)
            invalid_flow_generation
          ≡ ok tt
        → P (ok tt, record s { flow_generation = generation }))
    → P (rotate_flow_generation generation s)
unfolding rotate_flow_generation
rotate_cases P generation s fail pass = lift_cases P _ _ s fail (λ _ h. pass h)

pub set_mode_cases :
    (P : Result CoreError Event × State → Type 0) (mode : Mode) (strategy : EnforcementStrategy)
    (now : Instant) (s : State)
    → ((e : CoreError) → P (err e, s))
    → ((revision generation : ℕ)
        → next_revision s ≡ ok revision
        → generation_for_mode mode s (next_flow_generation s) ≡ ok generation
        → P (
          ok (event_of revision now (mode_changed s.mode mode)),
          record s {
            revision = revision;
            flow_generation = generation;
            mode = mode;
            enforcement_strategy = strategy;
          },
        ))
    → P (set_mode_with_strategy_at mode strategy now s)
unfolding set_mode_with_strategy_at
set_mode_cases P mode strategy now s fail pass =
    lift_cases P _ _ s fail
      λ revision hr. lift_cases P _ _ s fail λ generation hg. pass revision generation hr hg

pub create_cases :
    (P : Result CoreError (Rule × Event) × State → Type 0) (id : Uuid) (spec : RuleSpec)
    (now : Instant) (s : State)
    → ((e : CoreError) → P (err e, s))
    → ((rule : Rule) (revision : ℕ) (generation : Option ℕ)
        → reject_redacted_spec spec ≡ ok tt
        → reject_unpinned_application_spec spec ≡ ok tt
        → reject_if (leb max_rules (length s.rules)) (rules_limit_reached max_rules) ≡ ok tt
        → reject_if (is_some (BTree.get id s.rules)) (duplicate_rule_id id) ≡ ok tt
        → map_err validation (Rule.with_id_and_time id spec now) ≡ ok rule
        → next_revision s ≡ ok revision
        → next_generation_if
            (rule.spec.enabled && not (same RuleAction-discrete rule.spec.action accept))
            s
          ≡ ok generation
        → P (
          ok (rule, event_of revision now (rule_created rule)),
          record (set_generation generation (put_rule id rule s)) { revision = revision },
        ))
    → P (create_rule_at id spec now s)
unfolding create_rule_at
create_cases P id spec now s fail pass = lift_cases P _ _ s fail λ _ h1.
    lift_cases P _ _ s fail λ _ h2. lift_cases P _ _ s fail λ _ h3. lift_cases P _ _ s fail λ _ h4.
      lift_cases P _ _ s fail λ rule h5. lift_cases P _ _ s fail λ revision h6.
        lift_cases P _ _ s fail λ generation h7. pass rule revision generation h1 h2 h3 h4 h5 h6 h7

pub update_cases :
    (P : Result CoreError (Rule × Event) × State → Type 0) (id : Uuid) (spec : RuleSpec)
    (now : Instant) (s : State)
    → ((e : CoreError) → P (err e, s))
    → ((revision : ℕ) (current : Rule) (generation : ℕ)
        → check_spec spec ≡ ok tt
        → reject_redacted_spec spec ≡ ok tt
        → reject_unpinned_application_spec spec ≡ ok tt
        → next_revision s ≡ ok revision
        → found_rule id (BTree.get id s.rules) ≡ ok current
        → next_flow_generation s ≡ ok generation
        → map_err validation (Rule.validate (replaced current spec now)) ≡ ok tt
        → P (
          ok (
            replaced current spec now,
            event_of revision now (rule_updated (replaced current spec now)),
          ),
          record (put_rule id (replaced current spec now) s) {
            revision = revision;
            flow_generation = generation;
          },
        ))
    → P (update_cleared id spec now s)
unfolding update_cleared
update_cases P id spec now s fail pass = lift_cases P _ _ s fail λ _ h0.
    lift_cases P _ _ s fail λ _ h1. lift_cases P _ _ s fail λ _ h2.
      lift_cases P _ _ s fail λ revision h3. lift_cases P _ _ s fail λ current h4.
        lift_cases P _ _ s fail λ generation h5.
          lift_cases P _ _ s fail λ _ h6. pass revision current generation h0 h1 h2 h3 h4 h5 h6

pub delete_cases :
    (P : Result CoreError (Rule × Event) × State → Type 0) (id : Uuid) (now : Instant) (s : State)
    → ((e : CoreError) → P (err e, s))
    → ((revision : ℕ) (rule : Rule) (generation : ℕ)
        → next_revision s ≡ ok revision
        → found_rule id (BTree.get id s.rules) ≡ ok rule
        → next_flow_generation s ≡ ok generation
        → P (
          ok (rule, event_of revision now (rule_deleted rule)),
          record s {
            revision = revision;
            flow_generation = generation;
            rules = BTree.remove id s.rules;
          },
        ))
    → P (delete_rule_at id now s)
unfolding delete_rule_at
delete_cases P id now s fail pass = lift_cases P _ _ s fail λ revision h1.
    lift_cases P _ _ s fail
      λ rule h2. lift_cases P _ _ s fail λ generation h3. pass revision rule generation h1 h2 h3

pub enable_cases :
    (P : Result CoreError (Rule × Event) × State → Type 0) (id : Uuid) (enabled : Bool)
    (now : Instant) (s : State)
    → ((e : CoreError) → P (err e, s))
    → ((revision : ℕ) (current : Rule) (generation : Option ℕ)
        → next_revision s ≡ ok revision
        → found_rule id (BTree.get id s.rules) ≡ ok current
        → next_generation_if (revokes current enabled) s ≡ ok generation
        → map_err validation (Rule.validate (with_activation current enabled now)) ≡ ok tt
        → reject_unpinned_application_spec (with_activation current enabled now).spec ≡ ok tt
        → P (
          ok (
            with_activation current enabled now,
            event_of revision now (rule_enabled_changed (with_activation current enabled now)),
          ),
          record (set_generation generation (put_rule id (with_activation current enabled now) s)) {
            revision = revision;
          },
        ))
    → P (set_rule_enabled_at id enabled now s)
unfolding set_rule_enabled_at
enable_cases P id enabled now s fail pass = lift_cases P _ _ s fail λ revision h1.
    lift_cases P _ _ s fail λ current h2. lift_cases P _ _ s fail λ generation h3.
      lift_cases P _ _ s fail
        λ _ h4. lift_cases P _ _ s fail λ _ h5. pass revision current generation h1 h2 h3 h4 h5
