-- ===== src/Engine/Control.antt =====
-- What a control request does to a private copy of the policy: `apply_control_to_candidate` and
-- `apply_outbound_group_to_candidate` of crates/openshield-daemon/src/engine.rs. `Draws` gives the
-- fresh identifier and the time that each change of the copy takes.
use open_shield.Base.{
  Bool, true, false, ◌&&◌, ◌||◌, not, Option, none, some, List, [], ◌∷◌, ◌++◌, keep, is_empty,
  is_none, is_some_and, same, if◌then◌else◌,
}
use open_shield.Base.Outcome.{Result, ok, err, reject_if, map_err}
use open_shield.Base.Exec.{Exec, pure, lift, self, ◌>>=◌, ◌>>◌}
use open_shield.Base.Text.{codes}
use open_shield.BTree
use open_shield.BTree.{values}
use open_shield.Model.Kinds.{
  RuleAction, accept, drop, reject, manual, template, RuleOrigin-discrete, RuleAction-discrete,
}
use open_shield.Model.RuleSpec.{RuleSpec}
use open_shield.Model.Rule.{Rule, Uuid, Instant}
use open_shield.State.Data.{
  State, Event, CoreError, validation, rule_not_found, duplicate_rule_id, mismatched_rule_id,
  rules_limit_reached, revision_overflow, invalid_flow_generation, flow_generation_exhausted,
  redacted_application_metadata, invalid_observer_redaction, unpinned_application_identity,
  state_size_limit_reached, state_serialization,
}
use open_shield.State.External.{Draws, later}
use open_shield.State.Mutation.{
  set_mode_at, enforce, create_rule_at, update_rule_at, delete_rule_at, set_rule_enabled_at,
}
use open_shield.Attribution.Pinning.{pin_rule_application}
use open_shield.Protocol.Errors.{
  ErrorCode, invalid_request, not_found, conflict, internal, ProtocolError, protocol_error,
}
use open_shield.Protocol.Requests
use open_shield.Protocol.Requests.{
  ControlRequest, set_mode, set_enforcement, create_rule, update_rule, delete_rule,
  set_rule_enabled, manage_outbound_group, OutboundGroupSelector, OutboundGroupAction, deletes_all,
  accepts_all, rejects_all, drops_all, enables_all, disables_all,
}
use open_shield.Engine.Outside.{Outside}

abbrev pub core_error_code : CoreError → ErrorCode
core_error_code (validation _) = invalid_request
core_error_code (rule_not_found _) = not_found
core_error_code (duplicate_rule_id _) = conflict
core_error_code (rules_limit_reached _) = conflict
core_error_code (state_size_limit_reached _) = conflict
core_error_code revision_overflow = conflict
core_error_code flow_generation_exhausted = conflict
core_error_code invalid_flow_generation = internal
core_error_code invalid_observer_redaction = internal
core_error_code (state_serialization _) = internal
core_error_code (mismatched_rule_id _ _) = internal
core_error_code redacted_application_metadata = invalid_request
core_error_code unpinned_application_identity = invalid_request

-- What a change reports: its events, and the rule that it is about.
abbrev pub Changes : Type 0
Changes = List Event × Option Rule

abbrev pub about_policy : Event → Changes
about_policy event = (event ∷ [], none)

abbrev pub about_rule : Rule × Event → Changes
about_rule (rule, event) = (event ∷ [], some rule)

module _ (o : Outside) where
  unfoldable pub core_protocol_error : CoreError → ProtocolError
  core_protocol_error e = protocol_error (core_error_code e) (o.describe e)

  -- A method of `State` with `map_err(core_protocol_error)?`.
  abbrev pub on_state : {A : Type 0} → Exec CoreError State A → Exec ProtocolError State A
  on_state m s = (map_err core_protocol_error (m s).0, (m s).1)

  unfoldable pub pinned : Instant → RuleSpec → Result ProtocolError RuleSpec
  unfolding pin_rule_application
  pinned now spec =
      map_err (protocol_error invalid_request) (pin_rule_application (o.files now) spec)

  unfoldable pub missing_rule : Uuid → ProtocolError
  missing_rule id =
      protocol_error not_found (codes "rule " ++ (o.display_uuid id ++ codes " does not exist"))

  abbrev pub found : Uuid → Option Rule → Result ProtocolError Rule
  found id none = err (missing_rule id)
  found id (some rule) = ok rule

  -- Whether activation pins the application anew.
  abbrev pub needs_pin : Bool → RuleSpec → Bool
  needs_pin enabled spec =
      enabled
      && (same RuleOrigin-discrete spec.origin template
          || is_some_and spec.application (λ selector. is_none selector.executable_file))

  abbrev pub enabled_pinned : Draws → Uuid → RuleSpec → Exec ProtocolError State (Rule × Event)
  enabled_pinned draws id spec = do
    specification ← lift (pinned (draws 0).1 spec)
    on_state (update_rule_at id (record specification { enabled = true }) (draws 0).1)

  -- The arm of `SetRuleEnabled`.
  unfoldable pub set_enabled_in_candidate : Draws → Uuid → Bool → Exec ProtocolError State Changes
  unfolding pinned missing_rule core_protocol_error update_rule_at set_rule_enabled_at
  set_enabled_in_candidate draws id enabled = do
    s ← self
    current ← lift (found id (BTree.get id s.rules))
    changed ←
        (if needs_pin enabled current.spec
          then enabled_pinned draws id current.spec
          else on_state (set_rule_enabled_at id enabled (draws 0).1))
    pure (about_rule changed)

  abbrev pub action_of : OutboundGroupAction → RuleAction
  action_of rejects_all = reject
  action_of drops_all = drop
  action_of _ = accept

  abbrev pub needs_deny_pin : RuleSpec → Bool
  needs_deny_pin spec =
      not (same RuleAction-discrete spec.action accept)
      && is_some_and spec.application (λ selector. is_none selector.executable_file)

  abbrev pub pinned_if : Bool → Instant → RuleSpec → Result ProtocolError RuleSpec
  pinned_if true now spec = pinned now spec
  pinned_if false now spec = ok spec

  unfoldable pub set_action_in_candidate :
      Draws → RuleAction → Rule → Exec ProtocolError State (List Event)
  unfolding pinned core_protocol_error update_rule_at
  set_action_in_candidate draws action member = do
    let wanted = record member.spec { action = action }
    specification ← lift (pinned_if (needs_deny_pin wanted) (draws 0).1 wanted)
    (rule, event) ← on_state (update_rule_at member.id specification (draws 0).1)
    pure (event ∷ [])

  -- The body of the loop over the members, for one of them.
  unfoldable pub change_member :
      Draws → OutboundGroupAction → Rule → Exec ProtocolError State (List Event)
  unfolding core_protocol_error set_action_in_candidate set_enabled_in_candidate delete_rule_at
  change_member draws deletes_all member = do
    (rule, event) ← on_state (delete_rule_at member.id (draws 0).1)
    pure (event ∷ [])
  change_member draws enables_all member = do
    changes ← set_enabled_in_candidate draws member.id true
    pure changes.0
  change_member draws disables_all member = do
    changes ← set_enabled_in_candidate draws member.id false
    pure changes.0
  change_member draws action member = set_action_in_candidate draws (action_of action) member

  unfoldable pub change_members :
      Draws → OutboundGroupAction → List Rule → Exec ProtocolError State (List Event)
  unfolding change_member
  change_members draws action [] = pure []
  change_members draws action (member ∷ rest) = do
    events ← change_member draws action member
    more ← change_members (later draws) action rest
    pure (events ++ more)

  unfoldable pub apply_outbound_group_to_candidate :
      Draws → OutboundGroupSelector → OutboundGroupAction → Exec ProtocolError State (List Event)
  unfolding change_members Requests.matches
  apply_outbound_group_to_candidate draws group action = do
    s ← self
    let members = keep (Requests.matches o.trunc group) (values s.rules)
    lift (
        reject_if (is_empty members) (
          protocol_error not_found
            (codes "outbound group has no matching rules; reload before retrying")))
    change_members draws action members

  unfoldable pub create_in_candidate : Draws → RuleSpec → Exec ProtocolError State Changes
  unfolding pinned core_protocol_error create_rule_at
  create_in_candidate draws spec = do
    lift (
        reject_if (not (same RuleOrigin-discrete spec.origin manual)) (
          protocol_error invalid_request
            (codes "only the daemon may create rules marked as learned or template")))
    rule ← lift (pinned (draws 0).1 spec)
    created ← on_state (create_rule_at (draws 0).0 rule (draws 0).1)
    pure (about_rule created)

  unfoldable pub update_in_candidate : Draws → Uuid → RuleSpec → Exec ProtocolError State Changes
  unfolding pinned missing_rule core_protocol_error update_rule_at
  update_in_candidate draws id spec = do
    s ← self
    current ← lift (found id (BTree.get id s.rules))
    lift (
        reject_if (not (same RuleOrigin-discrete current.spec.origin spec.origin))
          (protocol_error invalid_request (codes "a rule's origin cannot be changed")))
    rule ← lift (pinned (draws 0).1 spec)
    updated ← on_state (update_rule_at id rule (draws 0).1)
    pure (about_rule updated)

  unfoldable pub apply_control_to_candidate :
      Draws → ControlRequest → Exec ProtocolError State Changes
  unfolding core_protocol_error create_in_candidate update_in_candidate set_enabled_in_candidate
      apply_outbound_group_to_candidate set_mode_at enforce delete_rule_at
  apply_control_to_candidate draws (set_enforcement _ strategy) = do
    event ← on_state (enforce strategy (draws 0).1)
    pure (about_policy event)
  apply_control_to_candidate draws (set_mode _ mode) = do
    event ← on_state (set_mode_at mode (draws 0).1)
    pure (about_policy event)
  apply_control_to_candidate draws (create_rule _ rule) = create_in_candidate draws rule
  apply_control_to_candidate draws (update_rule _ id rule) = update_in_candidate draws id rule
  apply_control_to_candidate draws (delete_rule _ id) = do
    deleted ← on_state (delete_rule_at id (draws 0).1)
    pure (about_rule deleted)
  apply_control_to_candidate draws (set_rule_enabled _ id enabled) =
      set_enabled_in_candidate draws id enabled
  apply_control_to_candidate draws (manage_outbound_group _ group action) = do
    events ← apply_outbound_group_to_candidate draws group action
    pure (events, none)
