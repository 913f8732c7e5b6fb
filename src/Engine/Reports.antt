-- ===== src/Engine/Reports.antt =====
-- What `Engine` of crates/openshield-daemon/src/engine.rs tells: status, pages of rules, counters.
pub mod Paging
pub mod Consistency
use open_shield.Base.{
  ℕ, Bool, true, false, ◌&&◌, ◌||◌, not, Option, none, some, List, [], ◌∷◌, length, take, drop,
  is_empty, min, same, ◌==◌, if◌then◌else◌,
}
use open_shield.Base.Words.{u32_max}
use open_shield.Base.Outcome.{Result, ok, err}
use open_shield.BTree
use open_shield.BTree.{values}
use open_shield.Model.Kinds.{Mode, block_all, Mode-discrete, FirewallCounters}
use open_shield.Model.Rule.{Rule, Uuid, Instant}
use open_shield.State.Data.{State, max_rules, max_automatic_learned_rules}
use open_shield.State.Mutation.{counters_event}
use open_shield.State.Interception.{application_interception}
use open_shield.State.Admission.{summary}
use open_shield.Attribution.DecisionPolicy.{ApplicationDecisionPolicy}
use open_shield.Protocol.Errors.{ProtocolError}
use open_shield.Protocol.Compatibility.{
  FirewallBackendKind, RuntimeCompatibility, pair, kernel_native, emergency_block_all,
  select_runtime_compatibility,
}
use open_shield.Protocol.Responses.{
  Response, status, status_v2, status_v3, status_v4, rules_page, fails, Status, LearningStatus,
  clamp_page_limit,
}
use open_shield.Engine.Bus.{publish}
use open_shield.Engine.Data.{Engine}
use open_shield.Engine.Emergency.{fatal_protocol_error, emergency_protocol_error}

-- `u32::try_from(n).unwrap_or(u32::MAX)`
abbrev pub to_u32 : ℕ → ℕ
to_u32 n = min n u32_max

unfoldable pub runtime_compatibility : FirewallBackendKind → Engine → RuntimeCompatibility
unfolding select_runtime_compatibility application_interception
runtime_compatibility kind e =
    if e.poisoned && same Mode-discrete e.state.mode block_all
    then pair kernel_native emergency_block_all
    else select_runtime_compatibility kind e.state.mode (application_interception e.state)

unfoldable pub learning_status : Engine → LearningStatus
unfolding summary
learning_status e =
    let s = summary e.application_learning_admission in
    record {
      per_uid_limit = to_u32 e.learning_limits.per_uid;
      per_application_limit = to_u32 e.learning_limits.per_application;
      automatic_rule_limit = to_u32 max_automatic_learned_rules;
      total_rule_limit = to_u32 max_rules;
      automatic_rules = to_u32 s.automatic_rules;
      saturated_uids = to_u32 s.saturated_uids;
      saturated_applications = to_u32 s.saturated_applications;
      quota_skipped_observations = e.quota_skipped_observations;
    }

abbrev pub status_of : FirewallBackendKind → Engine → Status
status_of kind e = record {
  revision = e.state.revision;
  mode = e.state.mode;
  rule_count = to_u32 (length e.state.rules);
  backend = kind;
  nfqueue = e.nfqueue_counters;
}

unfoldable pub status_response : FirewallBackendKind → Engine → Response
unfolding fatal_protocol_error
status_response kind e = if e.fatal then fails fatal_protocol_error else status (status_of kind e)

unfoldable pub status_v2_response : FirewallBackendKind → Engine → Response
unfolding fatal_protocol_error runtime_compatibility
status_v2_response kind e =
    if e.fatal
    then fails fatal_protocol_error
    else status_v2 (status_of kind e) (runtime_compatibility kind e)

unfoldable pub status_v3_response : FirewallBackendKind → Engine → Response
unfolding fatal_protocol_error runtime_compatibility learning_status
status_v3_response kind e =
    if e.fatal
    then fails fatal_protocol_error
    else status_v3 (status_of kind e) (runtime_compatibility kind e) (learning_status e)

unfoldable pub status_v4_response : FirewallBackendKind → Engine → Response
unfolding fatal_protocol_error runtime_compatibility learning_status
status_v4_response kind e =
    if e.fatal
    then fails fatal_protocol_error
    else status_v4 (status_of kind e) (runtime_compatibility kind e) (learning_status e)
        e.state.enforcement_strategy

-- `State::rules_after`.
unfoldable pub rules_after : Option Uuid → State → List Rule
unfolding BTree.after
rules_after none s = values s.rules
rules_after (some id) s = values (BTree.after id s.rules)

-- `rules.last().map(|rule| rule.id)`
abbrev pub last_id : List Rule → Option Uuid
last_id [] = none
last_id (rule ∷ []) = some rule.id
last_id (rule ∷ next ∷ rest) = last_id (next ∷ rest)

-- The cursor of the next page, if anything is left for it.
abbrev pub next_after : List Rule → List Rule → Option Uuid
next_after rules [] = none
next_after rules (_ ∷ _) = last_id rules

unfoldable pub rules_page_response : Option Uuid → ℕ → Engine → Response
unfolding fatal_protocol_error rules_after clamp_page_limit
rules_page_response after requested_limit e =
    let limit = clamp_page_limit requested_limit in
    let matching = rules_after after e.state in
    if e.fatal
    then fails fatal_protocol_error
    else rules_page e.state.revision (take limit matching)
        (next_after (take limit matching) (drop limit matching))

-- The packet path asks for the whole policy, and last for what identifies it.
unfoldable pub application_decision_snapshot :
    Engine → Result ProtocolError ApplicationDecisionPolicy
unfolding emergency_protocol_error
application_decision_snapshot e =
    if e.fatal || e.poisoned then err (emergency_protocol_error e) else ok e.application_policy

unfoldable pub application_decision_identity : Engine → Result ProtocolError (Mode × ℕ)
unfolding emergency_protocol_error
application_decision_identity e =
    if e.fatal || e.poisoned
    then err (emergency_protocol_error e)
    else ok (e.state.mode, e.state.flow_generation)

unfoldable pub subscription_revision : Engine → Result ProtocolError ℕ
unfolding fatal_protocol_error
subscription_revision e = if e.fatal then err fatal_protocol_error else ok e.state.revision

unfoldable pub restart_required : Engine → Bool
restart_required e = e.restart_required || e.fatal

unfoldable pub publish_counters_if_current : ℕ → FirewallCounters → Instant → Engine → Bool × Engine
unfolding publish counters_event
publish_counters_if_current expected counters now e =
    let published = record e { events = publish (counters_event counters now e.state) e.events } in
    if e.poisoned || not (e.state.revision == expected) then (false, e) else (true, published)
