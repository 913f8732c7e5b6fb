-- ===== src/State/Data.antt =====
-- The data of crates/openshield-core/src/state.rs: the policy, its snapshot, events and errors.
use open_shield.Base.{ℕ, ◌+◌, Bool, List, [], leb, ◌&&◌, if◌then◌else◌}
use open_shield.Base.Words.{u64_max}
use open_shield.Base.Outcome.{Result, ok, err}
use open_shield.Base.Text.{Text}
use open_shield.BTree.{values}
use open_shield.Model.Kinds.{Mode, block_all, EnforcementStrategy, strict, FirewallCounters}
use open_shield.Model.Failure.{ValidationError}
use open_shield.Model.Rule.{Rule, Uuid, Instant}

abbrev pub max_rules : ℕ
max_rules = 10_000

abbrev pub max_automatic_learned_rules : ℕ
max_automatic_learned_rules = 7_500

abbrev pub max_state_bytes : ℕ
max_state_bytes = 8_388_608

abbrev pub max_flow_generation : ℕ
max_flow_generation = 0x3fff_ffff

pub data CoreError : Type 0 where
  validation : ValidationError → CoreError
  rule_not_found : Uuid → CoreError
  duplicate_rule_id : Uuid → CoreError
  mismatched_rule_id : Uuid → Uuid → CoreError
  rules_limit_reached : ℕ → CoreError
  revision_overflow : CoreError
  invalid_flow_generation : CoreError
  flow_generation_exhausted : CoreError
  redacted_application_metadata : CoreError
  invalid_observer_redaction : CoreError
  unpinned_application_identity : CoreError
  state_size_limit_reached : ℕ → CoreError
  state_serialization : Text → CoreError

pub data EventKind : Type 0 where
  mode_changed : Mode → Mode → EventKind
  rule_created : Rule → EventKind
  rule_updated : Rule → EventKind
  rule_deleted : Rule → EventKind
  rule_enabled_changed : Rule → EventKind
  counters_updated : FirewallCounters → EventKind

pub record Event : Type 0 where
  pub revision : ℕ
  pub occurred_at : Instant
  pub kind : EventKind

pub record Snapshot : Type 0 where
  pub revision : ℕ
  pub flow_generation : ℕ
  pub mode : Mode
  pub rules : List Rule

pub record State : Type 0 where
  pub revision : ℕ
  pub flow_generation : ℕ
  pub mode : Mode
  pub enforcement_strategy : EnforcementStrategy
  pub rules : List (Uuid × Rule)

abbrev pub initial_flow_generation : ℕ
initial_flow_generation = 1

-- `State::new`.
abbrev pub new : State
new = record {
  revision = 0;
  flow_generation = initial_flow_generation;
  mode = block_all;
  enforcement_strategy = strict;
  rules = [];
}

unfoldable pub snapshot : State → Snapshot
snapshot s = record {
  revision = s.revision;
  flow_generation = s.flow_generation;
  mode = s.mode;
  rules = values s.rules;
}

-- `(1..=MAX_FLOW_GENERATION).contains(&generation)`
abbrev pub in_flow_domain : ℕ → Bool
in_flow_domain generation = leb 1 generation && leb generation max_flow_generation

unfoldable pub next_revision : State → Result CoreError ℕ
next_revision s =
    if leb (s.revision + 1) u64_max then ok (s.revision + 1) else err revision_overflow

unfoldable pub next_flow_generation : State → Result CoreError ℕ
next_flow_generation s =
    if leb max_flow_generation s.flow_generation
    then err flow_generation_exhausted
    else ok (s.flow_generation + 1)
